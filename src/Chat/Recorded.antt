-- ===== src/Chat/Recorded.antt =====
-- What of a request and of an answer is put into events and into memory: internal/proxy/ledger_events.go, and
-- `formatRawForMemory` and `isBinaryContentType` of handler_chat.go. The order of a range over headers is
-- that of the list.
use tokenomics.Base.{
  String, Bool, true, false, not, ◌&&◌, ◌||◌, List, [], ◌∷◌, ◌++◌, Option, none, some,
  if◌then◌else◌, ltb, ℕ, zero, suc, ◌-◌, is_nil, length, take, drop,
}
use Prim.Native.String.{len, slice, ◌++◌ as ◌+++◌}
use text.Mathlib.Text.{starts_with}
use tokenomics.Base.Eq.{string_eq, nat_eq, ◌==◌}
use tokenomics.RateLimit.Clock.{Time}
use tokenomics.Ledger.{Ledger, CommunicationEvent}
use tokenomics.Chat.{Header}
use tokenomics.Chat.Headers.{safe_headers}
use tokenomics.Chat.Capture.{Bytes, newline, data_prefix, has_prefix}

-- Packages strings, unicode/utf8 and fmt, on texts and on bytes.
pub record Texts : Type 0 where
  pub trim : Bytes → Bytes
  pub to_text : Bytes → String
  pub of_text : String → Bytes
  pub quote : String → String
  pub is_utf8 : Bytes → Bool
  pub trim_text : String → String
  pub lower : String → String
  pub holds : String → String → Bool
  pub itoa : ℕ → String

-- `strings.Split(s, "\n")`, with the piece read so far.
unfoldable pub split_lines : Bytes → Bytes → List Bytes
split_lines piece [] = piece ∷ []
split_lines piece (b ∷ bs) = elim (b == newline) [
  | true ↦ piece ∷ split_lines [] bs
  | false ↦ split_lines (piece ++ b ∷ []) bs
]

unfoldable pub ends_line : Bytes → Bool
ends_line [] = false
ends_line (b ∷ []) = b == newline
ends_line (b ∷ c ∷ bs) = ends_line (c ∷ bs)

-- `recordCommunicationEvent`, without the mirror in the ledger's memory.
unfoldable pub record_communication_event :
    CommunicationEvent Time → Option (Ledger Time) → Option (Ledger Time)
record_communication_event ev none = none
record_communication_event ev (some l) =
    some (
      if l.events then record l { communication_events = l.communication_events ++ ev ∷ [] } else l)

module _ (canonical : String → String) (tx : Texts) where
  open tx use {trim, to_text, is_utf8, trim_text, lower, holds, itoa}

  unfoldable pub is_binary_content_type : String → Bool
  is_binary_content_type ct =
      let type = lower (trim_text ct) in
      starts_with type "image/"
      || starts_with type "audio/"
      || starts_with type "video/"
      || type == "application/octet-stream"

  abbrev pub cut_to : ℕ → Bytes → Bytes
  cut_to max_body body =
      if ltb 0 max_body && ltb max_body (length body) then take max_body body else body

  unfoldable pub body_for_event : String → Bytes → ℕ → String × ℕ
  body_for_event content_type body max_body =
      if is_nil body
      then ("", 0)
      else if not (is_utf8 (cut_to max_body body)) || is_binary_content_type content_type
      then ("[binary]", length body)
      else (to_text (cut_to max_body body), length body)

  -- At most so many payloads, which the callers bound by 512.
  unfoldable pub payloads_of : ℕ → List Bytes → List Bytes
  payloads_of zero ls = []
  payloads_of (suc n) [] = []
  payloads_of (suc n) (l ∷ ls) = elim (has_prefix (trim l) data_prefix) [
    | true ↦ trim (drop (length data_prefix) (trim l)) ∷ payloads_of n ls
    | false ↦ payloads_of (suc n) ls
  ]

  unfoldable pub extract_sse_data_payloads : Bytes → ℕ → List Bytes
  extract_sse_data_payloads raw max_events =
      if is_nil raw then [] else payloads_of max_events (split_lines [] raw)

  unfoldable pub numbered : ℕ → List Bytes → String
  numbered i [] = ""
  numbered i (p ∷ ps) = itoa i +++ ". " +++ to_text p +++ "\n" +++ numbered (suc i) ps

  unfoldable pub format_sse_for_memory : List Bytes → String → Bool → String
  format_sse_for_memory payloads assistant_text truncated =
      "[streaming sse]\n"
      +++ (if is_nil payloads
          then "\nSSE events:\n(none captured)\n"
          else "\nSSE events:\n" +++ numbered 1 payloads)
      +++ "\nCaptured assistant text:\n"
      +++ (if assistant_text == ""
          then "(none)\n"
          else assistant_text
            +++ (if slice assistant_text (len assistant_text - 1) (len assistant_text) == "\n"
                then ""
                else "\n"))
      +++ (if truncated then "\n[assistant content truncated for memory]\n" else "")

  unfoldable pub value_lines : String → List String → String
  value_lines k [] = ""
  value_lines k (v ∷ vs) = "  " +++ k +++ ": " +++ v +++ "\n" +++ value_lines k vs

  unfoldable pub header_lines : Header → String
  header_lines [] = ""
  header_lines ((k, vs) ∷ h) = value_lines k vs +++ header_lines h

  abbrev pub body_lines : String → Bytes → String
  body_lines content_type body =
      if not (is_utf8 body) || is_binary_content_type content_type
      then "[binary, " +++ itoa (length body) +++ " bytes]\n"
      else to_text body +++ (if is_nil body || ends_line body then "" else "\n")

  unfoldable pub format_raw_for_memory : String → String → Header → Bytes → ℕ → String
  format_raw_for_memory label content_type headers body max_body =
      "Content-Type: "
      +++ (if content_type == "" then "(none)" else content_type)
      +++ "\n"
      +++ label
      +++ "\n"
      +++ header_lines (safe_headers canonical headers)
      +++ "\nBody:\n"
      +++ (if is_nil body then "(empty)\n" else body_lines content_type (cut_to max_body body))
