-- ===== src/Chat/Streaming.antt =====
-- What is kept of a stream: the bound on the text that goes to memory.
use tokenomics.Base.{
  String, ◌≡◌, refl, ◌≤◌, ◌-◌, arith, List, [], ◌∷◌, Option, none, some, not, Bool-cases, inl, inr,
}
use Prim.Native.String.{len, slice}
use text.Mathlib.TextPositions.{len-append}
use tokenomics.Base.Texts.{len-slice-le}
use text.Mathlib.Text.{starts_with}
use tokenomics.Base.Word.{Int64}
use tokenomics.Base.Eq.{string_eq, ◌==◌}
use tokenomics.Base.Dict.{lookup}
use tokenomics.Base.Json.{Json, Object, as_object, array_at, as_number}
use tokenomics.Chat.Tokens.{Tokenizer, Floats, count}
use tokenomics.Chat.Stream.{
  Scan, max_memory_content_size, keep_content, see_id, add_count, delta_content, read_choice,
  read_choices, read_usage, raised, with_usage, on_chunk, reported, read_chunk, read_line,
  scan_lines,
}

module _ {F : Type 0} where
  abbrev IsBounded : Scan F → Type 0
  IsBounded s = len s.content ≤ max_memory_content_size

  keep_content-IsBounded :
      (piece : String) (s : Scan F) → IsBounded s → IsBounded (keep_content piece s)
  unfolding keep_content
  keep_content-IsBounded piece s h = ground (
    arith,
    len-append s.content piece,
    len-append s.content (slice piece 0 (max_memory_content_size - len s.content)),
    len-slice-le piece (max_memory_content_size - len s.content),
  )

module _ (tk : Tokenizer) (fl : Floats) (unmarshal : String → Option (Object fl.Float)) where
  add_count-content :
      (n : Option Int64) (s : Scan fl.Float) → (add_count tk fl unmarshal n s).content ≡ s.content
  add_count-content none s = refl
  add_count-content (some n) s = refl

  read_choice-IsBounded :
      (model : String) (c : Json fl.Float) (s : Scan fl.Float)
      → IsBounded s
      → IsBounded (read_choice tk fl unmarshal model c s)
  unfolding read_choice
  read_choice-IsBounded model c s h =
      let piece = delta_content tk fl unmarshal c in
      let kept = keep_content piece s in
      elim (Bool-cases (piece == "")) [
        | inl e ↦ rw e h
        | inr e ↦
            rw (e, add_count-content (count tk model piece) kept) (keep_content-IsBounded piece s h)
      ]

  read_choices-IsBounded :
      (model : String) (cs : List (Json fl.Float)) (s : Scan fl.Float)
      → IsBounded s
      → IsBounded (read_choices tk fl unmarshal model cs s)
  unfolding read_choices
  read_choices-IsBounded model [] s h = h
  read_choices-IsBounded model (c ∷ cs) s h =
      read_choices-IsBounded model cs (read_choice tk fl unmarshal model c s)
        (read_choice-IsBounded model c s h)

  raised-content :
      (chunk : Object fl.Float) (x : Option fl.Float) (s : Scan fl.Float)
      → (raised tk fl unmarshal chunk x s).content ≡ s.content
  raised-content chunk none s = refl
  raised-content chunk (some x) s = refl

  with_usage-content :
      (chunk : Object fl.Float) (u : Option (Object fl.Float)) (s : Scan fl.Float)
      → (with_usage tk fl unmarshal chunk u s).content ≡ s.content
  with_usage-content chunk none s = refl
  with_usage-content chunk (some u) s =
      raised-content chunk
        (reported tk fl unmarshal (as_number (lookup "output_tokens" u))
          (as_number (lookup "completion_tokens" u)))
        s

  read_chunk-IsBounded :
      (model : String) (chunk : Object fl.Float) (s : Scan fl.Float)
      → IsBounded s
      → IsBounded (read_chunk tk fl unmarshal model chunk s)
  unfolding read_chunk see_id read_usage
  read_chunk-IsBounded model chunk s h =
      let seen = see_id chunk (record s { last_chunk = some chunk }) in
      rw
        (with_usage-content chunk (as_object (lookup "usage" chunk))
          (read_choices tk fl unmarshal model (array_at "choices" chunk) seen))
        (read_choices-IsBounded model (array_at "choices" chunk) seen (ground arith))

  on_chunk-IsBounded :
      (model : String) (chunk : Option (Object fl.Float)) (s : Scan fl.Float)
      → IsBounded s
      → IsBounded (on_chunk tk fl unmarshal model chunk s)
  on_chunk-IsBounded model none s h = h
  on_chunk-IsBounded model (some chunk) s h = read_chunk-IsBounded model chunk s h

  read_line-IsBounded :
      (model line : String) (s : Scan fl.Float)
      → IsBounded s
      → IsBounded (read_line tk fl unmarshal model line s)
  unfolding read_line
  read_line-IsBounded model line s h =
      let payload = slice line 6 (len line) in
      elim (Bool-cases (not (starts_with line "data: "))) [
        | inl e ↦ rw e h
        | inr e ↦ rw e (elim (Bool-cases (payload == "[DONE]")) [
          | inl d ↦ rw d h
          | inr d ↦ rw d (on_chunk-IsBounded model (unmarshal payload) s h)
        ])
      ]

  -- However a stream goes on, at most 512 KiB of its text are kept.
  scan_lines-IsBounded :
      (model : String) (ls : List String) (s : Scan fl.Float)
      → len s.content ≤ max_memory_content_size
      → len (scan_lines tk fl unmarshal model ls s).content ≤ max_memory_content_size
  unfolding scan_lines
  scan_lines-IsBounded model [] s h = h
  scan_lines-IsBounded model (l ∷ ls) s h =
      scan_lines-IsBounded model ls (read_line tk fl unmarshal model l s)
        (read_line-IsBounded model l s h)
