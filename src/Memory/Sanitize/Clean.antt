-- ===== src/Memory/Sanitize/Clean.antt =====
-- What sanitizing leaves, and how far its loop goes.
use tokenomics.Base.{
  All, ◌⊎◌, ◌≢◌, true, false, ◌&&◌, List, [], ◌∷◌, ◌++◌, if◌then◌else◌, ℕ, zero, suc, ◌≤◌, ◌<◌, ◌≡◌,
  refl, ap, ◌∙◌, arith, length, drop, drop-append, Bool-cases, inl, inr,
}
use tokenomics.Base.Eq.{nat_eq, ◌==◌}
use tokenomics.Memory.Sanitize.{
  Utf8, rune_error, space, question, is_disallowed_control_rune, is_invalid, written, read_bytes,
  sanitize_from, needs_from, needs_sanitization, sanitize_memory_content,
}

-- A rune that a text may hold, in the sense of the loop's tests.
abbrev pub IsFine : ℕ × ℕ → Type 0
IsFine d = (is_invalid d ≡ false) × (is_disallowed_control_rune d.0 ≡ false)

-- What unicode/utf8 documents: a rune takes at least a byte, and what `WriteRune` writes of a rune that was
-- decoded is decoded as it, by all of its bytes.
pub record Utf8Laws (u : Utf8) : Type 0 where
  pub size_pos : (b : ℕ) (bs : List ℕ) → 0 < (u.decode (b ∷ bs)).1
  pub decode_question : (rest : List ℕ) → u.decode (question ∷ rest) ≡ (question, 1)
  pub decode_space : (rest : List ℕ) → u.decode (space ∷ rest) ≡ (space, 1)
  pub encode_nonempty : (r : ℕ) → (b : ℕ) × (bs : List ℕ) × (u.encode r ≡ b ∷ bs)
  pub encode_error : length (u.encode rune_error) ≡ 3
  pub decode-encode :
      (b : ℕ) (bs rest : List ℕ)
      → is_invalid (u.decode (b ∷ bs)) ≡ false
      → u.decode (u.encode (u.decode (b ∷ bs)).0 ++ rest)
        ≡ ((u.decode (b ∷ bs)).0, length (u.encode (u.decode (b ∷ bs)).0))

length-drop_pos : (n : ℕ) (b : ℕ) (bs : List ℕ) → 0 < n → length (drop n (b ∷ bs)) ≤ length bs
length-drop_pos zero b bs h = absurd (omega arith)
length-drop_pos (suc n) b bs h = length-drop-le n bs
  where
    length-drop-le : (n : ℕ) (bs : List ℕ) → length (drop n bs) ≤ length bs
    length-drop-le zero bs = omega arith
    length-drop-le (suc n) [] = omega arith
    length-drop-le (suc n) (b ∷ bs) = omega (arith, length-drop-le n bs)

-- A rune of a readable text: not a byte that is no UTF-8, and a tab, a line feed, a carriage return, or
-- from the space on and not DEL.
abbrev pub IsText : ℕ × ℕ → Type 0
IsText (r, size) =
    ((r ≢ 65533) ⊎ (size ≢ 1)) × ((r ≡ 9) ⊎ (r ≡ 10) ⊎ (r ≡ 13) ⊎ ((32 ≤ r) × (r ≢ 127)))

module _ (u : Utf8) where
  -- The runes of a text with the bytes they take, as a loop over it meets them.
  unfoldable pub runes_from : ℕ → List ℕ → List (ℕ × ℕ)
  runes_from zero bs = []
  runes_from (suc f) [] = []
  runes_from (suc f) (b ∷ bs) = let d = u.decode (b ∷ bs) in d ∷ runes_from f (drop d.1 (b ∷ bs))

  abbrev pub runes : List ℕ → List (ℕ × ℕ)
  runes content = runes_from (length content) content

module _ (u : Utf8) (laws : Utf8Laws u) where
  -- Bytes that the loop of `needsSanitization` passes by in one round.
  record IsPiece (piece : List ℕ) : Type 0 where
    first : ℕ
    others : List ℕ
    cons : piece ≡ first ∷ others
    rune : ℕ
    decoded : (rest : List ℕ) → u.decode (piece ++ rest) ≡ (rune, length piece)
    fine : IsFine (rune, length piece)

  question-IsPiece : IsPiece (question ∷ [])
  unfolding is_disallowed_control_rune
  question-IsPiece = record {
    first = question;
    others = [];
    cons = refl;
    rune = question;
    decoded = laws.decode_question;
    fine = (refl, refl);
  }

  space-IsPiece : IsPiece (space ∷ [])
  unfolding is_disallowed_control_rune
  space-IsPiece = record {
    first = space;
    others = [];
    cons = refl;
    rune = space;
    decoded = laws.decode_space;
    fine = (refl, refl);
  }

  encoded_valid : (r : ℕ) → is_invalid (r, length (u.encode r)) ≡ false
  encoded_valid r = elim (Bool-cases (r == rune_error)) [
    | inl e ↦ ground (arith, laws.encode_error, ap (λ n. length (u.encode n)) (same e))
    | inr e ↦ rw e refl
  ]
    where
      same : (r == rune_error) ≡ true → r ≡ rune_error
      same e = ground arith

  encode-IsPiece :
      (b : ℕ) (bs : List ℕ)
      → is_invalid (u.decode (b ∷ bs)) ≡ false
      → is_disallowed_control_rune (u.decode (b ∷ bs)).0 ≡ false
      → IsPiece (u.encode (u.decode (b ∷ bs)).0)
  encode-IsPiece b bs valid allowed =
      let r = (u.decode (b ∷ bs)).0 in
      let (c, cs, e) = laws.encode_nonempty r in
      record {
        first = c;
        others = cs;
        cons = e;
        rune = r;
        decoded = λ rest. laws.decode-encode b bs rest valid;
        fine = (encoded_valid r, allowed);
      }

  written-IsPiece : (b : ℕ) (bs : List ℕ) → IsPiece (written u (u.decode (b ∷ bs)))
  written-IsPiece b bs = elim (Bool-cases (is_invalid (u.decode (b ∷ bs)))) [
    | inl e ↦ rw e question-IsPiece
    | inr e ↦ elim (Bool-cases (is_disallowed_control_rune (u.decode (b ∷ bs)).0)) [
      | inl c ↦ rw (e, c) space-IsPiece
      | inr c ↦ rw (e, c) (encode-IsPiece b bs e c)
    ]
  ]

  needs_from-piece :
      (g : ℕ) (piece rest : List ℕ)
      → IsPiece piece
      → needs_from u (suc g) (piece ++ rest) ≡ needs_from u g rest
  unfolding needs_from
  needs_from-piece g [] rest p = absurd (cc p.cons)
  needs_from-piece g (c ∷ cs) rest p =
      rw (p.decoded rest, p.fine.0, p.fine.1) (ap (needs_from u g) (drop-append (c ∷ cs) rest))

  needs_from-sanitize_from : (f g : ℕ) (bs : List ℕ) → needs_from u g (sanitize_from u f bs) ≡ false
  unfolding sanitize_from needs_from
  needs_from-sanitize_from f zero bs = refl
  needs_from-sanitize_from zero (suc g) bs = refl
  needs_from-sanitize_from (suc f) (suc g) [] = refl
  needs_from-sanitize_from (suc f) (suc g) (b ∷ bs) =
      let d = u.decode (b ∷ bs) in
      let rest = drop (read_bytes u d) (b ∷ bs) in
      needs_from-piece g (written u d) (sanitize_from u f rest) (written-IsPiece b bs)
      ∙ needs_from-sanitize_from f g rest

  read_bytes_pos : (d : ℕ × ℕ) → 0 < d.1 → 0 < read_bytes u d
  read_bytes_pos (r, size) h = elim (Bool-cases (r == rune_error && size == 1)) [
    | inl e ↦ rw e (omega arith)
    | inr e ↦ rw e h
  ]

  sanitize_from_fuel :
      (f g : ℕ) (bs : List ℕ)
      → length bs ≤ f
      → length bs ≤ g
      → sanitize_from u f bs ≡ sanitize_from u g bs
  unfolding sanitize_from
  sanitize_from_fuel zero zero bs h k = refl
  sanitize_from_fuel zero (suc g) [] h k = refl
  sanitize_from_fuel zero (suc g) (b ∷ bs) h k = absurd (omega arith)
  sanitize_from_fuel (suc f) zero [] h k = refl
  sanitize_from_fuel (suc f) zero (b ∷ bs) h k = absurd (omega arith)
  sanitize_from_fuel (suc f) (suc g) [] h k = refl
  sanitize_from_fuel (suc f) (suc g) (b ∷ bs) h k =
      let d = u.decode (b ∷ bs) in
      let le = length-drop_pos (read_bytes u d) b bs (read_bytes_pos d (laws.size_pos b bs)) in
      ap (λ rest. written u d ++ rest)
        (sanitize_from_fuel f g (drop (read_bytes u d) (b ∷ bs)) (omega arith) (omega arith))

  needs_from_fuel :
      (f g : ℕ) (bs : List ℕ)
      → length bs ≤ f
      → length bs ≤ g
      → needs_from u f bs ≡ needs_from u g bs
  unfolding needs_from
  needs_from_fuel zero zero bs h k = refl
  needs_from_fuel zero (suc g) [] h k = refl
  needs_from_fuel zero (suc g) (b ∷ bs) h k = absurd (omega arith)
  needs_from_fuel (suc f) zero [] h k = refl
  needs_from_fuel (suc f) zero (b ∷ bs) h k = absurd (omega arith)
  needs_from_fuel (suc f) (suc g) [] h k = refl
  needs_from_fuel (suc f) (suc g) (b ∷ bs) h k =
      let (r, size) = u.decode (b ∷ bs) in
      let le = length-drop_pos size b bs (laws.size_pos b bs) in
      ap
        (λ rest.
          if r == rune_error && size == 1
          then true
          else if is_disallowed_control_rune r
          then true
          else rest)
        (needs_from_fuel f g (drop size (b ∷ bs)) (omega arith) (omega arith))

  -- Both loops end within as many rounds as there are bytes: more fuel changes nothing.
  pub sanitize_from-needs_from :
      (f : ℕ) (content : List ℕ)
      → length content ≤ f
      → (sanitize_from u f content ≡ sanitize_from u (length content) content)
        × (needs_from u f content ≡ needs_sanitization u content)
  unfolding needs_sanitization
  sanitize_from-needs_from f content h = (
    sanitize_from_fuel f (length content) content h (omega arith),
    needs_from_fuel f (length content) content h (omega arith),
  )

  fine-IsText : (d : ℕ × ℕ) → IsFine d → IsText d
  unfolding is_disallowed_control_rune
  fine-IsText (r, size) (valid, allowed) = (is_valid (Bool-cases (r == rune_error)), text r allowed)
    where
      is_valid : ((r == rune_error) ≡ true) ⊎ ((r == rune_error) ≡ false) → (r ≢ 65533) ⊎ (size ≢ 1)
      is_valid (inl e) = inr (λ one. ground (arith, valid, e))
      is_valid (inr e) = inl (λ err_. ground (arith, e))

      text :
          (r : ℕ)
          → is_disallowed_control_rune r ≡ false
          → (r ≡ 9) ⊎ (r ≡ 10) ⊎ (r ≡ 13) ⊎ ((32 ≤ r) × (r ≢ 127))
      text r e = ground arith

  needs_from-IsText :
      (f : ℕ) (bs : List ℕ) → needs_from u f bs ≡ false → All IsText (runes_from u f bs)
  unfolding needs_from runes_from
  needs_from-IsText zero bs e = tt
  needs_from-IsText (suc f) [] e = tt
  needs_from-IsText (suc f) (b ∷ bs) e = elim (Bool-cases (is_invalid (u.decode (b ∷ bs)))) [
    | inl bad ↦ absurd (cc (rw bad at e))
    | inr valid ↦ elim (Bool-cases (is_disallowed_control_rune (u.decode (b ∷ bs)).0)) [
      | inl control ↦ absurd (cc (rw (valid, control) at e))
      | inr allowed ↦ (
        fine-IsText (u.decode (b ∷ bs)) (valid, allowed),
        needs_from-IsText f (drop (u.decode (b ∷ bs)).1 (b ∷ bs)) (rw (valid, allowed) at e),
      )
    ]
  ]

  -- Every rune of sanitized content is valid UTF-8 and a tab, a line feed, a carriage return, or from the space
  -- on and not DEL, and sanitizing the content again leaves it as it is.
  pub sanitize_memory_content-clean :
      (content : List ℕ)
      → All IsText (runes u (sanitize_memory_content u content))
        × (sanitize_memory_content u (sanitize_memory_content u content)
            ≡ sanitize_memory_content u content)
  unfolding sanitize_memory_content needs_sanitization
  sanitize_memory_content-clean content =
      (needs_from-IsText _ (sanitize_memory_content u content) clean, rw clean refl)
    where
      clean : needs_sanitization u (sanitize_memory_content u content) ≡ false
      clean = elim (Bool-cases (needs_sanitization u content)) [
        | inl e ↦ rw e (needs_from-sanitize_from (length content) _ content)
        | inr e ↦ rw e e
      ]
