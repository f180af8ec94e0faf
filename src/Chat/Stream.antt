-- ===== src/Chat/Stream.antt =====
-- `handleStreamingResponse` of internal/proxy/handler_chat.go, on the lines that its scanner yields: the
-- output tokens of a stream and the part of its text that is kept.
use tokenomics.Base.{
  String, Bool, true, false, not, List, [], ◌∷◌, Option, none, some, if◌then◌else◌, ltb, ℕ, ◌-◌,
  is_nil,
}
use Prim.Native.String.{len, slice, ◌++◌ as ◌+++◌}
use text.Mathlib.Text.{starts_with}
use tokenomics.Base.Eq.{string_eq, ◌==◌}
use tokenomics.Base.Dict.{Dict, lookup, insert, or_default}
use tokenomics.Base.Word.{Int64, add64, lt64}
use tokenomics.Base.Json.{Json, Object, as_object, as_text, as_number, text_at, array_at}
use tokenomics.Chat.Tokens.{Tokenizer, Floats, count}

abbrev pub max_memory_content_size : ℕ
max_memory_content_size = 524288

-- The variables of the scanning loop.
pub record Scan (F : Type 0) : Type 0 where
  pub output_tokens : Int64
  pub content : String
  pub upstream_id : String
  pub last_chunk : Option (Object F)
  pub truncated : Bool
  pub usage : Dict String Int64

abbrev pub start_scan : {F : Type 0} → Scan F
start_scan = record {
  output_tokens = 0;
  content = "";
  upstream_id = "";
  last_chunk = none;
  truncated = false;
  usage = [];
}

-- The identifier of a chunk: "id", and where that is no text, "responseId".
abbrev pub first_text : Option String → Option String → String
first_text (some id) other = id
first_text none (some id) = id
first_text none none = ""

-- Usage is cumulative: the largest number of a message counts.
unfoldable pub raise : String → Int64 → Dict String Int64 → Dict String Int64
raise id n usage = if lt64 (or_default 0 (lookup id usage)) n then insert id n usage else usage

module _ {F : Type 0} where
  -- What is kept of a piece of text, up to the limit; Go may cut a character in two, here it is left out.
  unfoldable pub keep_content : String → Scan F → Scan F
  keep_content piece s =
      let remaining = max_memory_content_size - len s.content in
      if ltb 0 remaining
      then (if ltb remaining (len piece)
          then record s { content = s.content +++ slice piece 0 remaining; truncated = true }
          else record s { content = s.content +++ piece })
      else record s { truncated = true }

  unfoldable pub see_id : Object F → Scan F → Scan F
  see_id chunk s =
      if s.upstream_id == ""
      then record s {
        upstream_id =
            first_text (as_text (lookup "id" chunk)) (as_text (lookup "responseId" chunk));
      }
      else s

  -- The message that a usage field is about: the first of the two that is a text and not empty.
  unfoldable pub message_id : Object F → String → String
  message_id chunk upstream_id =
      if not (text_at "id" chunk == "")
      then text_at "id" chunk
      else if not (text_at "responseId" chunk == "")
      then text_at "responseId" chunk
      else upstream_id

unfoldable pub sum_usage : Dict String Int64 → Int64
sum_usage [] = 0
sum_usage ((id, n) ∷ m) = add64 n (sum_usage m)

module _ (tk : Tokenizer) (fl : Floats) (unmarshal : String → Option (Object fl.Float)) where
  open fl use {Float, to_int}

  abbrev pub add_count : Option Int64 → Scan Float → Scan Float
  add_count none s = s
  add_count (some n) s = record s { output_tokens = add64 s.output_tokens n }

  -- One choice of a chunk: `choice["delta"]["content"]`, where these have the right types.
  abbrev pub delta_content : Json Float → String
  delta_content j = elim (as_object (some j)) [
    | none ↦ ""
    | some choice ↦ elim (as_object (lookup "delta" choice)) [
      | none ↦ ""
      | some delta ↦ text_at "content" delta
    ]
  ]

  unfoldable pub read_choice : String → Json Float → Scan Float → Scan Float
  read_choice model choice s =
      let piece = delta_content choice in
      if piece == "" then s else add_count (count tk model piece) (keep_content piece s)

  unfoldable pub read_choices : String → List (Json Float) → Scan Float → Scan Float
  read_choices model [] s = s
  read_choices model (c ∷ cs) s = read_choices model cs (read_choice model c s)

  abbrev pub reported : Option Float → Option Float → Option Float
  reported (some x) other = some x
  reported none other = other

  abbrev pub raised : Object Float → Option Float → Scan Float → Scan Float
  raised chunk none s = s
  raised chunk (some x) s = record s {
    usage = raise (message_id chunk s.upstream_id) (to_int x) s.usage;
  }

  abbrev pub with_usage : Object Float → Option (Object Float) → Scan Float → Scan Float
  with_usage chunk none s = s
  with_usage chunk (some usage) s =
      raised chunk
        (reported (as_number (lookup "output_tokens" usage))
          (as_number (lookup "completion_tokens" usage)))
        s

  unfoldable pub read_usage : Object Float → Scan Float → Scan Float
  read_usage chunk s = with_usage chunk (as_object (lookup "usage" chunk)) s

  unfoldable pub read_chunk : String → Object Float → Scan Float → Scan Float
  read_chunk model chunk s = read_usage chunk (
      read_choices model (array_at "choices" chunk)
        (see_id chunk (record s { last_chunk = some chunk })))

  abbrev pub on_chunk : String → Option (Object Float) → Scan Float → Scan Float
  on_chunk model none s = s
  on_chunk model (some chunk) s = read_chunk model chunk s

  -- One line: what is not data, the end mark and what is not JSON are passed over.
  unfoldable pub read_line : String → String → Scan Float → Scan Float
  read_line model line s =
      if not (starts_with line "data: ")
      then s
      else (let payload = slice line 6 (len line) in
          if payload == "[DONE]" then s else on_chunk model (unmarshal payload) s)

  unfoldable pub scan_lines : String → List String → Scan Float → Scan Float
  scan_lines model [] s = s
  scan_lines model (line ∷ ls) s = scan_lines model ls (read_line model line s)

  -- The output tokens of the stream: what the provider reported, else the tokens counted.
  unfoldable pub stream_tokens : Scan Float → Int64
  stream_tokens s = if is_nil s.usage then s.output_tokens else sum_usage s.usage
