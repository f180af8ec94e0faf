-- ===== src/Chat/Capture/Parsing.antt =====
-- What is parsed of a stream does not depend on how its bytes are cut into writes.
use tokenomics.Base.{
  String, Bool, true, false, List, [], ◌∷◌, ◌++◌, Option, none, some, if◌then◌else◌, ◌≡◌, refl, sym,
  ap, ◌∙◌, append_assoc,
}
use tokenomics.Base.Eq.{nat_eq, string_eq, ◌==◌}
use tokenomics.Base.Word.{Int64, lt64}
use tokenomics.Base.Dict.{lookup}
use tokenomics.Base.Json.{Json, Object, as_object, as_text, text_at, array_at}
use tokenomics.Chat.Capture.Lines.{
  IsOpen, then_bytes, read_lines-append, read_lines-open, read_lines-IsOpen,
}
use tokenomics.Chat.Tokens.{Floats, extract_token_counts, read_token_count}
use tokenomics.Chat.Capture.{
  Bytes, data_prefix, has_prefix, read_lines, Parsed, add_text, see_input, see_output, with_some,
  choice_text, choice_texts, delta_text, usage_output, usage_both, typed_event, read_event,
  read_line, read_each, put_back, parse_and_accumulate,
}

abbrev waiting : Bytes → Parsed → Parsed
waiting rest p = record p { sse_buffer = rest }

-- A step that neither reads nor writes the waiting bytes.
abbrev Commutes : (Parsed → Parsed) → Type 0
Commutes f = (rest : Bytes) (p : Parsed) → waiting rest (f p) ≡ f (waiting rest p)

if-Commutes : (t : Bool) (f : Parsed → Parsed) → Commutes f → Commutes (λ p. if t then f p else p)
if-Commutes true f h rest p = h rest p
if-Commutes false f h rest p = refl

add_text-Commutes : (s : String) → Commutes (add_text s)
unfolding add_text
add_text-Commutes s rest p = refl

see_input-Commutes : (n : Int64) → Commutes (see_input n)
unfolding see_input
see_input-Commutes n = if-Commutes (lt64 0 n) (λ p. record p { input_tokens = n }) (λ rest p. refl)

see_output-Commutes : (n : Int64) → Commutes (see_output n)
unfolding see_output
see_output-Commutes n =
    if-Commutes (lt64 0 n) (λ p. record p { output_tokens = n }) (λ rest p. refl)

with_some-Commutes {ℓ} :
    {A : Type ℓ} (f : A → Parsed → Parsed) (o : Option A)
    → ((a : A) → Commutes (f a))
    → Commutes (with_some f o)
with_some-Commutes f none h rest p = refl
with_some-Commutes f (some a) h rest p = h a rest p

module _ (fl : Floats) (trim : Bytes → Bytes) (unmarshal : Bytes → Option (Object fl.Float)) where
  choice_text-Commutes : (j : Json fl.Float) → Commutes (choice_text fl trim unmarshal j)
  choice_text-Commutes j = with_some-Commutes _ (as_object (some j)) (λ c.
      with_some-Commutes _ (as_object (lookup "delta" c))
        (λ delta. add_text-Commutes (text_at "content" delta)))

  choice_texts-Commutes : (js : List (Json fl.Float)) → Commutes (choice_texts fl trim unmarshal js)
  unfolding choice_texts
  choice_texts-Commutes [] rest p = refl
  choice_texts-Commutes (j ∷ js) rest p =
      choice_texts-Commutes js rest (choice_text fl trim unmarshal j p)
      ∙ ap (choice_texts fl trim unmarshal js) (choice_text-Commutes j rest p)

  usage_output-Commutes :
      (usage : Object fl.Float) → Commutes (usage_output fl trim unmarshal usage)
  usage_output-Commutes usage =
      with_some-Commutes see_output
        (read_token_count fl usage ("output_tokens" ∷ "completion_tokens" ∷ [])) see_output-Commutes

  usage_both-Commutes : (usage : Object fl.Float) → Commutes (usage_both fl trim unmarshal usage)
  usage_both-Commutes usage rest p =
      usage_output-Commutes usage rest
        (with_some see_input (read_token_count fl usage ("input_tokens" ∷ "prompt_tokens" ∷ [])) p)
      ∙ ap (usage_output fl trim unmarshal usage) (
          with_some-Commutes see_input
            (read_token_count fl usage ("input_tokens" ∷ "prompt_tokens" ∷ [])) see_input-Commutes
            rest p)

  else-Commutes :
      (t : Bool) (f g : Parsed → Parsed)
      → Commutes f
      → Commutes g
      → Commutes (λ p. if t then f p else g p)
  else-Commutes true f g h k rest p = h rest p
  else-Commutes false f g h k rest p = k rest p

  typed_event-Commutes :
      (type : String) (event : Object fl.Float)
      → Commutes (typed_event fl trim unmarshal type event)
  unfolding typed_event
  typed_event-Commutes type event =
      else-Commutes (type == "content_block_delta") _ _
        (with_some-Commutes (delta_text fl trim unmarshal) (as_object (lookup "delta" event))
          (λ delta.
            if-Commutes (text_at "type" delta == "text_delta") (add_text (text_at "text" delta))
              (add_text-Commutes (text_at "text" delta))))
        (else-Commutes (type == "message_delta") _ _
          (with_some-Commutes (usage_output fl trim unmarshal) (as_object (lookup "usage" event))
            usage_output-Commutes)
          (if-Commutes (type == "message_start") _ (
            with_some-Commutes _ (as_object (lookup "message" event)) (λ msg.
              with_some-Commutes (usage_both fl trim unmarshal) (as_object (lookup "usage" msg))
                usage_both-Commutes))))

  read_event-Commutes : (event : Object fl.Float) → Commutes (read_event fl trim unmarshal event)
  unfolding read_event
  read_event-Commutes event rest p =
      let counts = extract_token_counts fl event in
      let js = array_at "choices" event in
      let seen = see_input counts.0 p in
      let typed = with_some (typed_event_of event) (as_text (lookup "type" event)) in
      with_some-Commutes (typed_event_of event) (as_text (lookup "type" event))
        (λ type. typed_event-Commutes type event) rest
        (choice_texts fl trim unmarshal js (see_output counts.1 seen))
      ∙ ap typed (choice_texts-Commutes js rest (see_output counts.1 seen))
      ∙ ap (λ q. typed (choice_texts fl trim unmarshal js q))
          (see_output-Commutes counts.1 rest seen)
      ∙ ap (λ q. typed (choice_texts fl trim unmarshal js (see_output counts.1 q)))
          (see_input-Commutes counts.0 rest p)
    where
      typed_event_of : Object fl.Float → String → Parsed → Parsed
      typed_event_of event type q = typed_event fl trim unmarshal type event q

  read_line-Commutes : (line : Bytes) → Commutes (read_line fl trim unmarshal line)
  unfolding read_line
  read_line-Commutes line =
      if-Commutes (has_prefix (trim line) data_prefix) _
        (with_some-Commutes (read_event fl trim unmarshal) _ read_event-Commutes)

  read_each-Commutes : (ls : List Bytes) → Commutes (read_each fl trim unmarshal ls)
  unfolding read_each
  read_each-Commutes [] rest p = refl
  read_each-Commutes (l ∷ ls) rest p =
      read_each-Commutes ls rest (read_line fl trim unmarshal l p)
      ∙ ap (read_each fl trim unmarshal ls) (read_line-Commutes l rest p)

  read_each-append :
      (ls ms : List Bytes) (p : Parsed)
      → read_each fl trim unmarshal (ls ++ ms) p
        ≡ read_each fl trim unmarshal ms (read_each fl trim unmarshal ls p)
  unfolding read_each
  read_each-append [] ms p = refl
  read_each-append (l ∷ ls) ms p = read_each-append ls ms (read_line fl trim unmarshal l p)

  -- The waiting bytes after a write.
  put_back-sse_buffer :
      (p : Parsed) (r : List Bytes × Bytes) → (put_back fl trim unmarshal p r).sse_buffer ≡ r.1
  put_back-sse_buffer p (ls, rest) =
      ap (λ q. q.sse_buffer) (sym (read_each-Commutes ls rest (waiting rest p)))

  put_back-then_bytes :
      (p : Parsed) (r : List Bytes × Bytes) (ys : Bytes)
      → put_back fl trim unmarshal p (then_bytes r ys)
        ≡ put_back fl trim unmarshal (put_back fl trim unmarshal p r) (read_lines r.1 ys)
  put_back-then_bytes p (ls, rest) ys =
      let (ms, rest') = read_lines rest ys in
      read_each-append ls ms (waiting rest' p)
      ∙ ap (read_each fl trim unmarshal ms) (sym (read_each-Commutes ls rest' (waiting rest p)))

  pub parse-sse_buffer :
      (bs : Bytes) (p : Parsed)
      → IsOpen p.sse_buffer
      → IsOpen (parse_and_accumulate fl trim unmarshal bs p).sse_buffer
  unfolding parse_and_accumulate
  parse-sse_buffer bs p h =
      rw (put_back-sse_buffer p (read_lines [] (p.sse_buffer ++ bs)))
        (read_lines-IsOpen [] (p.sse_buffer ++ bs) tt)

  -- Parsing two writes is parsing the bytes of both at once.
  pub parse-append :
      (xs ys : Bytes) (p : Parsed)
      → IsOpen p.sse_buffer
      → parse_and_accumulate fl trim unmarshal ys (parse_and_accumulate fl trim unmarshal xs p)
        ≡ parse_and_accumulate fl trim unmarshal (xs ++ ys) p
  unfolding parse_and_accumulate
  parse-append xs ys p h =
      let r = read_lines [] (p.sse_buffer ++ xs) in
      let q = put_back fl trim unmarshal p r in
      let waits = put_back-sse_buffer p r in
      ap (put_back fl trim unmarshal q) (
        ap (λ w. read_lines [] (w ++ ys)) waits
        ∙ read_lines-open [] r.1 ys (read_lines-IsOpen [] (p.sse_buffer ++ xs) tt))
      ∙ sym (put_back-then_bytes p r ys)
      ∙ ap (put_back fl trim unmarshal p) (
          sym (read_lines-append [] (p.sse_buffer ++ xs) ys)
          ∙ ap (read_lines []) (append_assoc p.sse_buffer xs ys))
