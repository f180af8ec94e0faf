-- ===== src/Chat/Capture/Tests.antt =====
-- A stream of one event, "data:" and the end of its line, in two writes.
use tokenomics.Base.{
  ◌≡◌, refl, true, if◌then◌else◌, List, [], ◌∷◌, Option, some, ℕ, ◌≤◌, ◌⊎◌, take, length,
}
use tokenomics.Base.Dict.{lookup}
use tokenomics.Base.Word.{lt64}
use tokenomics.Base.Json.{Object, object, number, field, end}
use tokenomics.Chat.Tokens.{extract_token_counts, read_token_count}
use tokenomics.Chat.Samples.{naturals}
use tokenomics.Chat.Capture.{
  Bytes, newline, data_prefix, has_prefix, contains, joined, max_response_body_size, new_parsed,
  parse_and_accumulate, read_lines, read_each, read_line, read_event, choice_texts, see_input,
  see_output, new_streaming_response_writer, writes, write, parse_write, capture, detect, fitting,
}
use tokenomics.Chat.Capture.Kept.{writes-raw_response}
use tokenomics.Chat.Capture.Writes.{writes-parsed}

abbrev as_they_are : Bytes → Bytes
as_they_are bs = bs

abbrev nine_tokens : Bytes → Option (Object ℕ)
nine_tokens bs = some (("usage", object (field "completion_tokens" (number 9) end)) ∷ [])

abbrev pieces : List Bytes
pieces = data_prefix ∷ (newline ∷ []) ∷ []

charged :
    (writes naturals as_they_are nine_tokens pieces
      new_streaming_response_writer).parsed.output_tokens
    ≡ 9
unfolding writes write parse_write capture detect fitting parse_and_accumulate read_lines read_each
    read_line read_event choice_texts see_input see_output extract_token_counts read_token_count
    has_prefix contains lookup lt64
charged = refl

writes-parsed_example :
    (writes naturals as_they_are nine_tokens pieces new_streaming_response_writer).parsed ≡ (
      if contains data_prefix data_prefix
      then parse_and_accumulate naturals as_they_are nine_tokens (joined pieces) new_parsed
      else new_parsed)
writes-parsed_example =
    writes-parsed naturals as_they_are nine_tokens data_prefix ((newline ∷ []) ∷ [])

writes-raw_response_example :
    ((writes naturals as_they_are nine_tokens pieces new_streaming_response_writer).raw_response
      ≡ take max_response_body_size (joined pieces))
    × (((writes naturals as_they_are nine_tokens pieces new_streaming_response_writer).is_truncated
          ≡ true)
        ⊎ (length (joined pieces) ≤ max_response_body_size))
writes-raw_response_example = writes-raw_response naturals as_they_are nine_tokens pieces
