-- ===== src/Memory/Sanitize.antt =====
-- `sanitizeMemoryContent` of internal/session/memory_writer.go, on the bytes of a text. Its loop goes by the
-- bytes that are left, on fuel.
pub mod Clean
use tokenomics.Base.{
  Bool, true, false, not, ◌&&◌, ◌||◌, List, [], ◌∷◌, ◌++◌, if◌then◌else◌, ltb, ℕ, zero, suc, ◌≤◌,
  ◌<◌, ◌≡◌, length, drop,
}
use tokenomics.Base.Eq.{nat_eq, ◌==◌}

-- Package unicode/utf8: the rune that a text begins with and how many bytes it takes, and a rune's bytes.
pub record Utf8 : Type 0 where
  pub decode : List ℕ → ℕ × ℕ
  pub encode : ℕ → List ℕ

abbrev pub rune_error : ℕ
rune_error = 65533

abbrev pub space : ℕ
space = 32

abbrev pub question : ℕ
question = 63

unfoldable pub is_disallowed_control_rune : ℕ → Bool
is_disallowed_control_rune r = if r == 10 || r == 13 || r == 9 then false else ltb r 32 || r == 127

abbrev pub is_invalid : ℕ × ℕ → Bool
is_invalid (r, size) = r == rune_error && size == 1

module _ (u : Utf8) where
  open u use {decode, encode}

  -- One round of the loop: what is written, and how many bytes are read.
  abbrev pub written : ℕ × ℕ → List ℕ
  written (r, size) =
      if r == rune_error && size == 1
      then question ∷ []
      else if is_disallowed_control_rune r
      then space ∷ []
      else encode r

  abbrev pub read_bytes : ℕ × ℕ → ℕ
  read_bytes (r, size) = if r == rune_error && size == 1 then 1 else size

  unfoldable pub sanitize_from : ℕ → List ℕ → List ℕ
  sanitize_from zero bs = []
  sanitize_from (suc f) [] = []
  sanitize_from (suc f) (b ∷ bs) =
      written (decode (b ∷ bs)) ++ sanitize_from f (drop (read_bytes (decode (b ∷ bs))) (b ∷ bs))

  unfoldable pub needs_from : ℕ → List ℕ → Bool
  needs_from zero bs = false
  needs_from (suc f) [] = false
  needs_from (suc f) (b ∷ bs) =
      let (r, size) = decode (b ∷ bs) in
      let rest = needs_from f (drop size (b ∷ bs)) in
      if r == rune_error && size == 1
      then true
      else if is_disallowed_control_rune r
      then true
      else rest

  unfoldable pub needs_sanitization : List ℕ → Bool
  needs_sanitization content = needs_from (length content) content

  unfoldable pub sanitize_memory_content : List ℕ → List ℕ
  sanitize_memory_content content =
      if needs_sanitization content then sanitize_from (length content) content else content
