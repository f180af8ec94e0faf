-- ===== src/Chat/Capture.antt =====
-- `streamingResponseWriter` and `loggingResponseWriter` of internal/proxy/logging.go: what the passthrough
-- handler sees of an answer, which reaches it in writes of any size. A byte is a number; `chunk_count` and
-- `content_size` count in ℕ, as neither can come near 2 ^ 63.
mod Lines
mod Parsing
pub mod Kept
pub mod Writes
mod Tests
use tokenomics.Base.{
  String, Bool, true, false, not, ◌&&◌, List, [], ◌∷◌, ◌++◌, Option, none, some, if◌then◌else◌, ltb,
  ℕ, zero, ◌-◌, ◌+◌, is_nil, length, take, drop,
}
use Prim.Native.String.{◌++◌ as ◌+++◌}
use tokenomics.Base.Eq.{string_eq, nat_eq, ◌==◌}
use tokenomics.Base.Dict.{lookup}
use tokenomics.Base.Word.{Int64, lt64}
use tokenomics.Base.Json.{Json, Object, as_object, as_text, text_at, array_at}
use tokenomics.Chat.Tokens.{Floats, extract_token_counts, read_token_count}

abbrev pub Bytes : Type 0
Bytes = List ℕ

abbrev pub newline : ℕ
newline = 10

-- "data:"
abbrev pub data_prefix : Bytes
data_prefix = 100 ∷ 97 ∷ 116 ∷ 97 ∷ 58 ∷ []

abbrev pub max_response_body_size : ℕ
max_response_body_size = 33554432

-- `bytes.HasPrefix` and `bytes.Contains`
unfoldable pub has_prefix : Bytes → Bytes → Bool
has_prefix bs [] = true
has_prefix [] (p ∷ ps) = false
has_prefix (b ∷ bs) (p ∷ ps) = if b == p then has_prefix bs ps else false

unfoldable pub contains : Bytes → Bytes → Bool
contains [] ps = has_prefix [] ps
contains (b ∷ bs) ps = if has_prefix (b ∷ bs) ps then true else contains bs ps

abbrev begin_line : Bytes → List Bytes × Bytes → List Bytes × Bytes
begin_line line (ls, rest) = (line ∷ ls, rest)

-- `ReadBytes('\n')` until it fails: the complete lines, with their ends, and what is put back.
unfoldable pub read_lines : Bytes → Bytes → List Bytes × Bytes
read_lines line [] = ([], line)
read_lines line (b ∷ bs) = elim (b == newline) [
  | true ↦ begin_line (line ++ b ∷ []) (read_lines [] bs)
  | false ↦ read_lines (line ++ b ∷ []) bs
]

-- The bytes of the writes, one after the other.
abbrev pub joined : List Bytes → Bytes
joined [] = []
joined (b ∷ bs) = b ++ joined bs

-- What the parser of a stream has found, and the line that it waits for the end of.
pub record Parsed : Type 0 where
  pub sse_buffer : Bytes
  pub assistant_text : String
  pub input_tokens : Int64
  pub output_tokens : Int64

abbrev pub new_parsed : Parsed
new_parsed = record { sse_buffer = []; assistant_text = ""; input_tokens = 0; output_tokens = 0 }

pub record StreamingResponseWriter : Type 0 where
  pub parsed : Parsed
  pub raw_response : Bytes
  pub chunk_count : ℕ
  pub is_streaming : Bool
  pub content_size : ℕ
  pub is_truncated : Bool

abbrev pub new_streaming_response_writer : StreamingResponseWriter
new_streaming_response_writer = record {
  parsed = new_parsed;
  raw_response = [];
  chunk_count = 0;
  is_streaming = false;
  content_size = 0;
  is_truncated = false;
}

unfoldable pub add_text : String → Parsed → Parsed
add_text s p = record p { assistant_text = p.assistant_text +++ s }

-- `if n > 0 { sw.inputTokens = n }`
unfoldable pub see_input : Int64 → Parsed → Parsed
see_input n p = if lt64 0 n then record p { input_tokens = n } else p

unfoldable pub see_output : Int64 → Parsed → Parsed
see_output n p = if lt64 0 n then record p { output_tokens = n } else p

abbrev pub with_some {ℓ} : {A : Type ℓ} → (A → Parsed → Parsed) → Option A → Parsed → Parsed
with_some f none p = p
with_some f (some a) p = f a p

-- The first two parts of `Write`; the third is `parse_write`.
unfoldable pub detect : Bytes → StreamingResponseWriter → StreamingResponseWriter
detect b sw =
    if sw.chunk_count == 0 && not (is_nil b)
    then record sw { is_streaming = contains b data_prefix }
    else sw

-- `toWrite`, with the room that is left.
unfoldable pub fitting : ℕ → Bytes → Bytes
fitting remaining b = if ltb remaining (length b) then take remaining b else b

unfoldable pub capture : Bytes → StreamingResponseWriter → StreamingResponseWriter
capture b sw =
    if ltb sw.content_size max_response_body_size
    then (let remaining = max_response_body_size - sw.content_size in
        record sw {
          raw_response = sw.raw_response ++ fitting remaining b;
          content_size = sw.content_size + length (fitting remaining b);
          is_truncated = if ltb remaining (length b) then true else sw.is_truncated;
        })
    else record sw { is_truncated = true }

-- `trim` is TrimSpace, and `unmarshal` decodes an object.
module _ (fl : Floats) (trim : Bytes → Bytes) (unmarshal : Bytes → Option (Object fl.Float)) where
  open fl use {Float}

  -- `choice["delta"]["content"]` of each choice.
  abbrev pub choice_text : Json Float → Parsed → Parsed
  choice_text choice p =
      with_some
        (λ c p'.
          with_some (λ delta q. add_text (text_at "content" delta) q) (as_object (lookup "delta" c))
            p')
        (as_object (some choice)) p

  unfoldable pub choice_texts : List (Json Float) → Parsed → Parsed
  choice_texts [] p = p
  choice_texts (c ∷ cs) p = choice_texts cs (choice_text c p)

  abbrev pub delta_text : Object Float → Parsed → Parsed
  delta_text delta p =
      if text_at "type" delta == "text_delta" then add_text (text_at "text" delta) p else p

  abbrev pub usage_output : Object Float → Parsed → Parsed
  usage_output usage p =
      with_some see_output (read_token_count fl usage ("output_tokens" ∷ "completion_tokens" ∷ []))
        p

  abbrev pub usage_both : Object Float → Parsed → Parsed
  usage_both usage p =
      usage_output usage
        (with_some see_input (read_token_count fl usage ("input_tokens" ∷ "prompt_tokens" ∷ [])) p)

  -- Anthropic's events.
  unfoldable pub typed_event : String → Object Float → Parsed → Parsed
  typed_event type event p =
      if type == "content_block_delta"
      then with_some delta_text (as_object (lookup "delta" event)) p
      else if type == "message_delta"
      then with_some usage_output (as_object (lookup "usage" event)) p
      else if type == "message_start"
      then with_some (λ msg q. with_some usage_both (as_object (lookup "usage" msg)) q)
          (as_object (lookup "message" event)) p
      else p

  unfoldable pub read_event : Object Float → Parsed → Parsed
  read_event event p =
      let (input, output) = extract_token_counts fl event in
      with_some (λ type q. typed_event type event q) (as_text (lookup "type" event))
        (choice_texts (array_at "choices" event) (see_output output (see_input input p)))

  unfoldable pub read_line : Bytes → Parsed → Parsed
  read_line line p =
      let text = trim line in
      if has_prefix text data_prefix
      then with_some read_event (unmarshal (trim (drop (length data_prefix) text))) p
      else p

  unfoldable pub read_each : List Bytes → Parsed → Parsed
  read_each [] p = p
  read_each (l ∷ ls) p = read_each ls (read_line l p)

  abbrev pub put_back : Parsed → List Bytes × Bytes → Parsed
  put_back p (ls, rest) = read_each ls (record p { sse_buffer = rest })

  unfoldable pub parse_and_accumulate : Bytes → Parsed → Parsed
  parse_and_accumulate bs p = put_back p (read_lines [] (p.sse_buffer ++ bs))

  unfoldable pub parse_write : Bytes → StreamingResponseWriter → StreamingResponseWriter
  parse_write b sw =
      if sw.is_streaming then record sw { parsed = parse_and_accumulate b sw.parsed } else sw

  unfoldable pub write : Bytes → StreamingResponseWriter → StreamingResponseWriter
  write b sw =
      let sw' = parse_write b (capture b (detect b sw)) in
      record sw' { chunk_count = sw'.chunk_count + 1 }

  unfoldable pub writes : List Bytes → StreamingResponseWriter → StreamingResponseWriter
  writes [] sw = sw
  writes (b ∷ bs) sw = writes bs (write b sw)
