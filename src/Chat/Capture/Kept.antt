-- ===== src/Chat/Capture/Kept.antt =====
-- What is captured of an answer, whatever the writes are that bring it.
use tokenomics.Base.{
  Bool, true, false, not, ◌&&◌, List, [], ◌∷◌, ◌++◌, append_assoc, append-nil, Option,
  if◌then◌else◌, ◌≡◌, refl, sym, ap, ◌∙◌, ℕ, zero, suc, ◌-◌, ◌≤◌, ◌<◌, ◌⊎◌, Bool-cases, inl, inr,
  arith, length, take, ltb, ltb→lt, le_of_not-ltb, is_nil, length-append,
}
use tokenomics.Base.Eq.{nat_eq, ◌==◌}
use tokenomics.Base.Json.{Object}
use tokenomics.Chat.Tokens.{Floats}
use tokenomics.Chat.Capture.{
  Bytes, joined, fitting, max_response_body_size, StreamingResponseWriter,
  new_streaming_response_writer, detect, capture, parse_write, write, writes,
}

take-all {ℓ} : {A : Type ℓ} (n : ℕ) (xs : List A) → length xs ≤ n → take n xs ≡ xs
take-all zero [] h = refl
take-all zero (x ∷ xs) h = absurd (omega arith)
take-all (suc n) [] h = refl
take-all (suc n) (x ∷ xs) h = ap (λ l. x ∷ l) (take-all n xs (omega arith))

take-zero {ℓ} : {A : Type ℓ} (n : ℕ) (xs : List A) → n ≡ 0 → take n xs ≡ []
take-zero zero xs e = refl
take-zero (suc n) xs e = absurd (omega arith)

take-append_rest {ℓ} :
    {A : Type ℓ} (n : ℕ) (xs ys : List A) → take n (xs ++ ys) ≡ take n xs ++ take (n - length xs) ys
take-append_rest zero xs ys = rw (take-zero (zero - length xs) ys (omega arith)) refl
take-append_rest (suc n) [] ys = let e : suc n ≡ suc n - 0 = omega arith in ap (λ m. take m ys) e
take-append_rest (suc n) (x ∷ xs) ys =
    ap (λ l. x ∷ l) (take-append_rest n xs ys ∙ ap (λ m. take n xs ++ take m ys) (omega arith))

take-nil {ℓ} : {A : Type ℓ} (n : ℕ) → take {A = A} n [] ≡ []
take-nil zero = refl
take-nil (suc n) = refl

-- A part is the whole, or as long as it may be.
take-cases {ℓ} :
    {A : Type ℓ} (n : ℕ) (xs : List A)
    → ((take n xs ≡ xs) × (length xs ≤ n)) ⊎ ((length (take n xs) ≡ n) × (n < length xs))
take-cases n [] = inl (take-all n [] (omega arith), omega arith)
take-cases zero (x ∷ xs) = inr (refl, omega arith)
take-cases (suc n) (x ∷ xs) = elim (take-cases n xs) [
  | inl (e, h) ↦ inl (ap (λ l. x ∷ l) e, omega arith)
  | inr (e, h) ↦ inr (omega (arith, e), omega arith)
]

-- A writer after some writes: it keeps the first bytes of them all, and says where it leaves some out.
record Keeps (done : Bytes) (sw : StreamingResponseWriter) : Type 0 where
  kept : sw.raw_response ≡ take max_response_body_size done
  size : sw.content_size ≡ length sw.raw_response
  whole : (sw.is_truncated ≡ true) ⊎ (length done ≤ max_response_body_size)

fitting-take : (n : ℕ) (b : Bytes) → fitting n b ≡ take n b
unfolding fitting
fitting-take n b = elim (Bool-cases (ltb n (length b))) [
  | inl e ↦ rw e refl
  | inr e ↦ rw e (sym (take-all n b (ground arith)))
]

module _ (b done : Bytes) (sw : StreamingResponseWriter) (v : Keeps done sw) where
  capture-Keeps_room :
      take max_response_body_size done ≡ done
      → length done ≤ max_response_body_size
      → ltb sw.content_size max_response_body_size ≡ true
      → Keeps (done ++ b) (capture b sw)
  unfolding capture
  capture-Keeps_room fits le room =
      let remaining = max_response_body_size - sw.content_size in
      let left : remaining ≡ max_response_body_size - length done =
        omega (arith, v.size, ap length v.kept, ap length fits) in
      rw room (record {
        kept =
            ap (λ raw. raw ++ fitting remaining b) v.kept
            ∙ ap (λ part. take max_response_body_size done ++ part)
                (fitting-take remaining b ∙ ap (λ n. take n b) left)
            ∙ sym (take-append_rest max_response_body_size done b);
        size = omega (arith, v.size, length-append sw.raw_response (fitting remaining b));
        whole = elim (Bool-cases (ltb remaining (length b))) [
          | inl e ↦ inl (rw e refl)
          | inr e ↦
              inr (omega (arith, left, length-append done b, le_of_not-ltb remaining (length b) e))
        ];
      })

  capture-Keeps_full :
      take (max_response_body_size - length done) b ≡ []
      → ltb sw.content_size max_response_body_size ≡ false
      → Keeps (done ++ b) (capture b sw)
  unfolding capture
  capture-Keeps_full none_left full = rw full (record {
    kept =
        v.kept
        ∙ sym (append-nil (take max_response_body_size done))
        ∙ ap (λ part. take max_response_body_size done ++ part) (sym none_left)
        ∙ sym (take-append_rest max_response_body_size done b);
    size = v.size;
    whole = inl refl;
  })

  capture-Keeps : Keeps (done ++ b) (capture b sw)
  capture-Keeps = elim (Bool-cases (ltb sw.content_size max_response_body_size)) [
    | inl room ↦ elim (take-cases max_response_body_size done) [
      | inl (fits, le) ↦ capture-Keeps_room fits le room
      | inr (e, h) ↦ absurd (
          omega
            (arith, v.size, ap length v.kept, ltb→lt sw.content_size max_response_body_size room))
    ]
    | inr full ↦
        capture-Keeps_full
          (take-zero (max_response_body_size - length done) b
            (elim (take-cases max_response_body_size done) [
              | inl (fits, le) ↦ omega (
                arith,
                v.size,
                ap length v.kept,
                ap length fits,
                le_of_not-ltb sw.content_size max_response_body_size full,
              )
              | inr (e, h) ↦ omega arith
            ]))
          full
  ]

detect-Keeps :
    (b done : Bytes) (sw : StreamingResponseWriter) → Keeps done sw → Keeps done (detect b sw)
unfolding detect
detect-Keeps b done sw v = elim (Bool-cases (sw.chunk_count == 0 && not (is_nil b))) [
  | inl e ↦ rw e (record { kept = v.kept; size = v.size; whole = v.whole })
  | inr e ↦ rw e v
]

if-Keeps :
    {a b : StreamingResponseWriter} (done : Bytes) (t : Bool)
    → Keeps done a
    → Keeps done b
    → Keeps done (if t then a else b)
if-Keeps done true v w = v
if-Keeps done false v w = w

new-Keeps : Keeps [] new_streaming_response_writer
new-Keeps = record {
  kept = sym (take-nil max_response_body_size);
  size = refl;
  whole = inr (omega arith);
}

module _ (fl : Floats) (trim : Bytes → Bytes) (unmarshal : Bytes → Option (Object fl.Float)) where
  parse_write-Keeps :
      (b done : Bytes) (sw : StreamingResponseWriter)
      → Keeps done sw
      → Keeps done (parse_write fl trim unmarshal b sw)
  unfolding parse_write
  parse_write-Keeps b done sw v =
      if-Keeps done sw.is_streaming (record { kept = v.kept; size = v.size; whole = v.whole }) v

  write-Keeps :
      (b done : Bytes) (sw : StreamingResponseWriter)
      → Keeps done sw
      → Keeps (done ++ b) (write fl trim unmarshal b sw)
  unfolding write
  write-Keeps b done sw v =
      let found = detect b sw in
      let k =
        parse_write-Keeps b (done ++ b) (capture b found)
          (capture-Keeps b done found (detect-Keeps b done sw v)) in
      record { kept = k.kept; size = k.size; whole = k.whole }

  writes-Keeps :
      (bs : List Bytes) (done : Bytes) (sw : StreamingResponseWriter)
      → Keeps done sw
      → Keeps (done ++ joined bs) (writes fl trim unmarshal bs sw)
  unfolding writes
  writes-Keeps [] done sw v = rw (append-nil done) v
  writes-Keeps (b ∷ bs) done sw v =
      rw (sym (append_assoc done b (joined bs)))
        (writes-Keeps bs (done ++ b) (write fl trim unmarshal b sw) (write-Keeps b done sw v))

  -- Whatever the writes are that bring an answer: what is captured of it are its first 32 MiB, and where
  -- bytes are missing the capture is marked as truncated.
  pub writes-raw_response :
      (bs : List Bytes)
      → ((writes fl trim unmarshal bs new_streaming_response_writer).raw_response
          ≡ take max_response_body_size (joined bs))
        × (((writes fl trim unmarshal bs new_streaming_response_writer).is_truncated ≡ true)
            ⊎ (length (joined bs) ≤ max_response_body_size))
  writes-raw_response bs =
      let v = writes-Keeps bs [] new_streaming_response_writer new-Keeps in (v.kept, v.whole)
