-- ===== src/Chat/Inspect.antt =====
-- The loop of `handleChatCompletions` over the messages of a request: rules are checked on each text, and
-- masking rules change it.
pub mod Checked
use tokenomics.Base.{
  String, Bool, not, List, [], ◌∷◌, ◌++◌, map, Option, none, some, if◌then◌else◌, ltb, ℕ,
}
use Prim.Native.String.{len, slice}
use tokenomics.Base.Eq.{string_eq, ◌==◌}
use tokenomics.Base.Dict.{Dict, insert}
use tokenomics.Base.Json.{Json, text, object, Object, as_object, text_at, to_fields}
use tokenomics.Events.{Event, Value, words}
use tokenomics.Policy.Regex.{Regex}
use tokenomics.Policy.Rule.{MatchText}
use tokenomics.Policy.Resolve.{ResolvedPolicy}
use tokenomics.Policy.Engine.{RuleMatch, Blocked, check_rules, mask_content}

pub record RuleMatchLog : Type 0 where
  pub name : String
  pub action : String
  pub message : String

-- What the loop adds to the log entry, and what it emits.
pub record Notes : Type 0 where
  pub rule_matches : List RuleMatchLog
  pub events : List Event

abbrev pub no_notes : Notes
no_notes = record { rule_matches = []; events = [] }

-- `safePrefix`
unfoldable pub safe_prefix : String → ℕ → String
safe_prefix s n = if ltb n (len s) then slice s 0 n else s

-- `for k, v := range m { data[k] = v }`
unfoldable pub put_all : Dict String String → Dict String Value → Dict String Value
put_all [] o = o
put_all ((k, v) ∷ m) o = put_all m (insert k (words v) o)

-- `typedMessages`, before the prompts.
unfoldable pub typed_messages : {F : Type 0} → List (Json F) → List (Object F)
typed_messages [] = []
typed_messages (j ∷ js) =
    let rest = typed_messages js in
    elim (as_object (some j)) [ none ↦ rest | some msg ↦ msg ∷ rest ]

-- `message` writes the text of a match; `meta` is the request's OpenClaw metadata.
module _ (re : Regex) (message : MatchText → String) (meta : Dict String String)
    (token_hash model : String) where
  open re use {Regexp}

  abbrev pub about : Dict String Value
  about = ("token_hash", words (safe_prefix token_hash 16)) ∷ ("model", words model) ∷ []

  unfoldable pub log_of : RuleMatch Regexp → RuleMatchLog
  log_of m = record { name = m.name; action = m.action; message = message m.message }

  unfoldable pub violation_of : RuleMatch Regexp → Event
  violation_of m = record {
    type = "rule.violation";
    payload =
        put_all meta
          (about ++ ("rule_name", words m.name) ∷ ("message", words (message m.message)) ∷ []);
  }

  unfoldable pub match_of : RuleMatch Regexp → Event
  match_of m = record {
    type = if m.action == "warn" then "rule.warning" else "rule.match";
    payload =
        about
        ++ ("rule_name", words m.name)
          ∷ ("action", words m.action)
          ∷ ("message", words (message m.message))
          ∷ [];
  }

  abbrev note : (RuleMatch Regexp → Event) → List (RuleMatch Regexp) → Notes → Notes
  note event ms n = record {
    rule_matches = n.rule_matches ++ map log_of ms;
    events = n.events ++ map event ms;
  }

  abbrev masked_log : RuleMatchLog
  masked_log = record { name = ""; action = "mask"; message = "content redacted before forwarding" }

  abbrev masked_event : Event
  masked_event = record { type = "rule.mask"; payload = about }

  unfoldable pub note_mask : String → String → Notes → Notes
  note_mask content masked n = if masked == content then n else record {
    rule_matches = n.rule_matches ++ masked_log ∷ [];
    events = n.events ++ masked_event ∷ [];
  }

  module _ {F : Type 0} (rp : ResolvedPolicy Regexp) where
    abbrev pub set_content : Object F → String → String → Json F
    set_content msg content masked =
        object (to_fields (if masked == content then msg else insert "content" (text masked) msg))

    -- One text: the message that goes on, the notes, and the violation that ends the request.
    abbrev pub judged :
        Object F
        → String
        → Notes
        → List (RuleMatch Regexp) × Option Blocked
        → Json F × Notes × Option Blocked
    judged msg content n (ms, some b) = (object (to_fields msg), note violation_of ms n, some b)
    judged msg content n (ms, none) =
        let masked = mask_content re rp content "input" in
        (set_content msg content masked, note_mask content masked (note match_of ms n), none)

    abbrev pub inspect_object : Json F → Option (Object F) → Notes → Json F × Notes × Option Blocked
    inspect_object j none n = (j, n, none)
    inspect_object j (some msg) n =
        let content = text_at "content" msg in
        if content == ""
        then (j, n, none)
        else judged msg content n (check_rules re rp content "input")

    unfoldable pub inspect_message : Json F → Notes → Json F × Notes × Option Blocked
    inspect_message j n = inspect_object j (as_object (some j)) n

    -- The loop returns at the first violation; what follows it is not looked at.
    abbrev pub or_blocked :
        Json F × Notes × Option Blocked
        → List (Json F)
        → (Notes → List (Json F) × Notes × Option Blocked)
        → List (Json F) × Notes × Option Blocked
    or_blocked (j, n, some b) js rest = (j ∷ js, n, some b)
    or_blocked (j, n, none) js rest = let (js', n', b) = rest n in (j ∷ js', n', b)

    unfoldable pub inspect_messages : List (Json F) → Notes → List (Json F) × Notes × Option Blocked
    inspect_messages [] n = ([], n, none)
    inspect_messages (j ∷ js) n = or_blocked (inspect_message j n) js (inspect_messages js)
