-- ===== src/Chat/Capture/Lines.antt =====
-- The lines of a stream do not depend on how its bytes are cut into writes.
use tokenomics.Base.{
  false, List, [], ◌∷◌, ◌++◌, ◌≡◌, refl, ap, ◌∙◌, ℕ, All, Bool-cases, inl, inr, append_assoc,
  append-nil,
}
use tokenomics.Base.Eq.{nat_eq, string_eq, ◌==◌}
use tokenomics.Chat.Capture.{Bytes, newline, begin_line, read_lines}

-- No byte ends a line.
abbrev pub IsOpen : Bytes → Type 0
IsOpen bs = All (λ b. (b == newline) ≡ false) bs

append-IsOpen : (xs : Bytes) (b : ℕ) → IsOpen xs → (b == newline) ≡ false → IsOpen (xs ++ b ∷ [])
append-IsOpen [] b h e = (e, tt)
append-IsOpen (x ∷ xs) b h e = (h.0, append-IsOpen xs b h.1 e)

-- More bytes after those that were read.
abbrev pub then_bytes : List Bytes × Bytes → Bytes → List Bytes × Bytes
then_bytes (ls, rest) bs = (ls ++ (read_lines rest bs).0, (read_lines rest bs).1)

begin_line-then_bytes :
    (line : Bytes) (r : List Bytes × Bytes) (bs : Bytes)
    → begin_line line (then_bytes r bs) ≡ then_bytes (begin_line line r) bs
begin_line-then_bytes line (ls, rest) bs = refl

pub read_lines-append :
    (line xs ys : Bytes) → read_lines line (xs ++ ys) ≡ then_bytes (read_lines line xs) ys
unfolding read_lines
read_lines-append line [] ys = refl
read_lines-append line (x ∷ xs) ys = elim (Bool-cases (x == newline)) [
  | inl e ↦
      rw (e, read_lines)
        (ap (begin_line (line ++ x ∷ [])) (read_lines-append [] xs ys)
          ∙ begin_line-then_bytes (line ++ x ∷ []) (read_lines [] xs) ys)
  | inr e ↦ rw (e, read_lines) (read_lines-append (line ++ x ∷ []) xs ys)
]

pub read_lines-open :
    (line xs ys : Bytes) → IsOpen xs → read_lines line (xs ++ ys) ≡ read_lines (line ++ xs) ys
unfolding read_lines
read_lines-open line [] ys h = rw (append-nil line) refl
read_lines-open line (x ∷ xs) ys h =
    rw (h.0, read_lines)
      (read_lines-open (line ++ x ∷ []) xs ys h.1
        ∙ ap (λ l. read_lines l ys) (append_assoc line (x ∷ []) xs))

begin_line-IsOpen :
    (line : Bytes) (r : List Bytes × Bytes) → IsOpen r.1 → IsOpen (begin_line line r).1
begin_line-IsOpen line (ls, rest) h = h

-- What waits for its end has none.
pub read_lines-IsOpen : (line xs : Bytes) → IsOpen line → IsOpen (read_lines line xs).1
unfolding read_lines
read_lines-IsOpen line [] h = h
read_lines-IsOpen line (x ∷ xs) h = elim (Bool-cases (x == newline)) [
  | inl e ↦
      rw (e, read_lines)
        (begin_line-IsOpen (line ++ x ∷ []) (read_lines [] xs) (read_lines-IsOpen [] xs tt))
  | inr e ↦ rw (e, read_lines) (read_lines-IsOpen (line ++ x ∷ []) xs (append-IsOpen line x h e))
]
