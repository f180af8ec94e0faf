-- ===== src/Chat/Capture/Writes.antt =====
-- What is read of a stream, whatever the writes are that bring it.
use tokenomics.Base.{
  Bool, true, false, List, [], ◌∷◌, ◌++◌, Option, if◌then◌else◌, ◌≡◌, refl, sym, ap, subst, ◌∙◌, ℕ,
  suc, Bool-cases, inl, inr, arith, ltb,
}
use tokenomics.Base.Eq.{nat_eq, ◌==◌}
use tokenomics.Base.Json.{Object}
use tokenomics.Chat.Tokens.{Floats}
use tokenomics.Chat.Capture.{
  Bytes, data_prefix, has_prefix, contains, joined, read_lines, read_each, max_response_body_size,
  Parsed, new_parsed, put_back, parse_and_accumulate, StreamingResponseWriter,
  new_streaming_response_writer, detect, capture, parse_write, write, writes,
}
use tokenomics.Chat.Capture.Lines.{IsOpen, read_lines-open}
use tokenomics.Chat.Capture.Parsing.{parse-append, parse-sse_buffer}

detect-parsed : (b : Bytes) (sw : StreamingResponseWriter) → (detect b sw).parsed ≡ sw.parsed
unfolding detect
detect-parsed b sw = ground arith

-- Once a write is counted, no later one changes whether the answer is a stream.
detect-later :
    (b : Bytes) (n : ℕ) (sw : StreamingResponseWriter) → sw.chunk_count ≡ suc n → detect b sw ≡ sw
unfolding detect
detect-later b n sw e = let later : (sw.chunk_count == 0) ≡ false = ground arith in rw later refl

capture-parsed : (b : Bytes) (sw : StreamingResponseWriter) → (capture b sw).parsed ≡ sw.parsed
unfolding capture
capture-parsed b sw = elim (Bool-cases (ltb sw.content_size max_response_body_size)) [
  | inl e ↦ rw e refl
  | inr e ↦ rw e refl
]

capture-is_streaming :
    (b : Bytes) (sw : StreamingResponseWriter) → (capture b sw).is_streaming ≡ sw.is_streaming
unfolding capture
capture-is_streaming b sw = elim (Bool-cases (ltb sw.content_size max_response_body_size)) [
  | inl e ↦ rw e refl
  | inr e ↦ rw e refl
]

detect-chunk_count :
    (b : Bytes) (sw : StreamingResponseWriter) → (detect b sw).chunk_count ≡ sw.chunk_count
unfolding detect
detect-chunk_count b sw = ground arith

capture-chunk_count :
    (b : Bytes) (sw : StreamingResponseWriter) → (capture b sw).chunk_count ≡ sw.chunk_count
unfolding capture
capture-chunk_count b sw = elim (Bool-cases (ltb sw.content_size max_response_body_size)) [
  | inl e ↦ rw e refl
  | inr e ↦ rw e refl
]

-- The first write tells whether the answer is a stream.
first-is_streaming :
    (b : Bytes) → (detect b new_streaming_response_writer).is_streaming ≡ contains b data_prefix
unfolding detect contains has_prefix
first-is_streaming [] = refl
first-is_streaming (x ∷ xs) = refl

module _ (fl : Floats) (trim : Bytes → Bytes) (unmarshal : Bytes → Option (Object fl.Float)) where
  abbrev pub parsed_if : Bool → Bytes → Parsed → Parsed
  parsed_if streaming bs p = if streaming then parse_and_accumulate fl trim unmarshal bs p else p

  parse_write-parsed :
      (b : Bytes) (sw : StreamingResponseWriter)
      → (parse_write fl trim unmarshal b sw).parsed ≡ parsed_if sw.is_streaming b sw.parsed
  unfolding parse_write
  parse_write-parsed b sw = go sw.is_streaming
    where
      go :
          (t : Bool)
          → (if t
              then record sw { parsed = parse_and_accumulate fl trim unmarshal b sw.parsed }
              else sw).parsed
            ≡ parsed_if t b sw.parsed
      go true = refl
      go false = refl

  parse_write-is_streaming :
      (b : Bytes) (sw : StreamingResponseWriter)
      → (parse_write fl trim unmarshal b sw).is_streaming ≡ sw.is_streaming
  unfolding parse_write
  parse_write-is_streaming b sw = ground arith

  parse_write-chunk_count :
      (b : Bytes) (sw : StreamingResponseWriter)
      → (parse_write fl trim unmarshal b sw).chunk_count ≡ sw.chunk_count
  unfolding parse_write
  parse_write-chunk_count b sw = ground arith

  write-parsed :
      (b : Bytes) (sw : StreamingResponseWriter)
      → (write fl trim unmarshal b sw).parsed ≡ parsed_if (detect b sw).is_streaming b sw.parsed
  unfolding write
  write-parsed b sw =
      parse_write-parsed b (capture b (detect b sw))
      ∙ ap (λ t. parsed_if t b (capture b (detect b sw)).parsed)
          (capture-is_streaming b (detect b sw))
      ∙ ap (parsed_if (detect b sw).is_streaming b)
          (capture-parsed b (detect b sw) ∙ detect-parsed b sw)

  write-is_streaming :
      (b : Bytes) (sw : StreamingResponseWriter)
      → (write fl trim unmarshal b sw).is_streaming ≡ (detect b sw).is_streaming
  unfolding write
  write-is_streaming b sw =
      parse_write-is_streaming b (capture b (detect b sw)) ∙ capture-is_streaming b (detect b sw)

  write-chunk_count :
      (b : Bytes) (sw : StreamingResponseWriter)
      → (write fl trim unmarshal b sw).chunk_count ≡ suc sw.chunk_count
  unfolding write
  write-chunk_count b sw = omega (
    arith,
    parse_write-chunk_count b (capture b (detect b sw)),
    capture-chunk_count b (detect b sw),
    detect-chunk_count b sw,
  )

  parsed_if-IsOpen :
      (t : Bool) (b : Bytes) (p : Parsed)
      → IsOpen p.sse_buffer
      → IsOpen (parsed_if t b p).sse_buffer
  parsed_if-IsOpen true b p h = parse-sse_buffer fl trim unmarshal b p h
  parsed_if-IsOpen false b p h = h

  parsed_if-append :
      (t : Bool) (b bs : Bytes) (p : Parsed)
      → IsOpen p.sse_buffer
      → parsed_if t bs (parsed_if t b p) ≡ parsed_if t (b ++ bs) p
  parsed_if-append true b bs p h = parse-append fl trim unmarshal b bs p h
  parsed_if-append false b bs p h = refl

  parsed_if-nil : (t : Bool) (p : Parsed) → IsOpen p.sse_buffer → parsed_if t [] p ≡ p
  unfolding parse_and_accumulate read_lines read_each
  parsed_if-nil true p h = ap (put_back fl trim unmarshal p) (read_lines-open [] p.sse_buffer [] h)
  parsed_if-nil false p h = refl

  -- The writes after the first.
  writes_later-parsed :
      (bs : List Bytes) (n : ℕ) (sw : StreamingResponseWriter)
      → sw.chunk_count ≡ suc n
      → IsOpen sw.parsed.sse_buffer
      → (writes fl trim unmarshal bs sw).parsed ≡ parsed_if sw.is_streaming (joined bs) sw.parsed
  unfolding writes
  writes_later-parsed [] n sw e h = sym (parsed_if-nil sw.is_streaming sw.parsed h)
  writes_later-parsed (b ∷ bs) n sw e h =
      let same = detect-later b n sw e in
      let sw' = write fl trim unmarshal b sw in
      let wrote : sw'.parsed ≡ parsed_if sw.is_streaming b sw.parsed =
        write-parsed b sw ∙ ap (λ s. parsed_if s.is_streaming b sw.parsed) same in
      let streams : sw'.is_streaming ≡ sw.is_streaming =
        write-is_streaming b sw ∙ ap (λ s. s.is_streaming) same in
      writes_later-parsed bs (suc n) sw' (write-chunk_count b sw ∙ ap suc e) (
        subst (λ p. IsOpen p.sse_buffer) (sym wrote)
          (parsed_if-IsOpen sw.is_streaming b sw.parsed h))
      ∙ ap (λ t. parsed_if t (joined bs) sw'.parsed) streams
      ∙ ap (parsed_if sw.is_streaming (joined bs)) wrote
      ∙ parsed_if-append sw.is_streaming b (joined bs) sw.parsed h

  -- However an answer is cut into writes, its tokens and its text are those of parsing all its bytes at
  -- once, where "data:" stands in the first write, and none where it does not, whatever the others hold.
  pub writes-parsed :
      (b : Bytes) (bs : List Bytes)
      → (writes fl trim unmarshal (b ∷ bs) new_streaming_response_writer).parsed ≡ (
          if contains b data_prefix
          then parse_and_accumulate fl trim unmarshal (joined (b ∷ bs)) new_parsed
          else new_parsed)
  unfolding writes
  writes-parsed b bs =
      let sw' = write fl trim unmarshal b new_streaming_response_writer in
      let t = contains b data_prefix in
      let wrote : sw'.parsed ≡ parsed_if t b new_parsed =
        write-parsed b new_streaming_response_writer
        ∙ ap (λ u. parsed_if u b new_parsed) (first-is_streaming b) in
      let streams : sw'.is_streaming ≡ t =
        write-is_streaming b new_streaming_response_writer ∙ first-is_streaming b in
      writes_later-parsed bs 0 sw' (write-chunk_count b new_streaming_response_writer)
        (subst (λ p. IsOpen p.sse_buffer) (sym wrote) (parsed_if-IsOpen t b new_parsed tt))
      ∙ ap (λ u. parsed_if u (joined bs) sw'.parsed) streams
      ∙ ap (parsed_if t (joined bs)) wrote
      ∙ parsed_if-append t b (joined bs) new_parsed tt
