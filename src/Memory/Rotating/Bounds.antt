-- ===== src/Memory/Rotating/Bounds.antt =====
-- How large a file is let grow.
use tokenomics.Base.{
  String, Bool, true, false, Option, none, some, Option-cases, Bool-cases, inl, inr, Result, ok,
  err, if◌then◌else◌, ◌≡◌, refl, sym, ap, ◌∙◌, ℕ, ◌+◌, ◌-◌, ◌≤◌, ◌<◌, ◌^◌, arith,
}
use tokenomics.Base.Eq.{string_eq}
use tokenomics.Base.Dict.{Dict, lookup, insert, or_default, lookup-insert_self}
use tokenomics.Base.Word.{Int64, add64, lt64}
use tokenomics.Memory.Files.{Files, Names}
use tokenomics.Memory.Rotating.{
  RotatingDirMemoryWriter, path_of, opened_at, within_dir, get_file, Opened, rotated, is_full,
  checked_file, with_room, counted_up, wrote, written_to, append_entry,
}
use tokenomics.Memory.Archive.{WriteError, RotatingFile, rotate}
use tokenomics.Memory.Rotating.Small.{
  AreSmall, FilesAreSmall, IsSmall, lookup-small, insert-small, rotate-written, get_file-IsSmall,
  with_room-IsSmall,
}
use tokenomics.Memory.Rotating.Stuck.{within_day}

-- What is documented of a write: it tells a number of bytes that is no more than it was given.
pub record WriteLaws (fs : Files) (nm : Names) : Type 0 where
  pub write-le : (w : fs.World) (f : fs.Handle) (s : String) → (fs.write w f s).1 ≤ nm.length s

module _ (fs : Files) (nm : Names) (laws : WriteLaws fs nm) (all_small : AreSmall fs) where
  fits :
      (max written len : Int64)
      → max < 2 ^ 62
      → written < 2 ^ 62
      → len ≤ max
      → lt64 max (add64 written len) ≡ false
      → written + len ≤ max
  unfolding lt64 add64
  fits max written len hm hw hl e = ground arith

  grown_exact : (max written n : Int64) → max < 2 ^ 62 → written + n ≤ max → add64 written n ≤ max
  unfolding add64
  grown_exact max written n hm h = omega arith

  -- The writer keeps its settings, and holds a file at the path of which so much is written at most.
  record IsOpenAt (wr : RotatingDirMemoryWriter fs nm) (date sid : String) (n : ℕ)
      (wr' : RotatingDirMemoryWriter fs nm) : Type 0 where
    max : wr'.max_size_bytes ≡ wr.max_size_bytes
    path : path_of fs nm wr' date sid ≡ path_of fs nm wr date sid
    rf : RotatingFile fs nm
    found : lookup (path_of fs nm wr date sid) wr'.files ≡ some rf
    bound : rf.written ≤ n

  abbrev OpensAt : RotatingDirMemoryWriter fs nm → String → String → ℕ → Opened fs nm → Type 0
  OpensAt wr date sid n (wr', w, err e) = Unit
  OpensAt wr date sid n (wr', w, ok f) = IsOpenAt wr date sid n wr'

  abbrev small : ℕ
  small = 4611686018427387903

  opened_at-OpensAt :
      (wr : RotatingDirMemoryWriter fs nm) (date sid : String)
      (files : Dict String (RotatingFile fs nm)) (r : fs.World × Option fs.Handle)
      → OpensAt wr date sid small
          (opened_at fs nm (path_of fs nm wr date sid) (record wr { files = files }) r)
  unfolding path_of
  opened_at-OpensAt wr date sid files (w, none) = tt
  opened_at-OpensAt wr date sid files (w, some f) =
      let n = or_default 0 (fs.size w f) in
      let rf : RotatingFile fs nm = record {
        path = path_of fs nm wr date sid;
        file = f;
        written = n;
      } in
      record {
        max = refl;
        path = refl;
        rf = rf;
        found = lookup-insert_self (path_of fs nm wr date sid) rf files;
        bound = omega (arith, all_small w f);
      }

  within_dir-OpensAt :
      (wr : RotatingDirMemoryWriter fs nm) (date sid : String)
      (files : Dict String (RotatingFile fs nm)) (r : fs.World × Bool)
      → OpensAt wr date sid small
          (within_dir fs nm (path_of fs nm wr date sid) (record wr { files = files }) r)
  within_dir-OpensAt wr date sid files (w, false) = tt
  within_dir-OpensAt wr date sid files (w, true) =
      opened_at-OpensAt wr date sid files (fs.open_append w (path_of fs nm wr date sid))

  get_file-OpensAt :
      (wr : RotatingDirMemoryWriter fs nm) (date sid : String) (w : fs.World)
      → FilesAreSmall fs nm wr.files
      → OpensAt wr date sid small (get_file fs nm date sid wr w)
  unfolding get_file
  get_file-OpensAt wr date sid w h =
      elim (Option-cases (lookup (path_of fs nm wr date sid) wr.files)) [
        | inl e ↦ rw e (within_dir-OpensAt wr date sid _ _)
        | inr (rf, e) ↦ rw e (record {
          max = refl;
          path = refl;
          rf = rf;
          found = e;
          bound = omega (arith, lookup-small fs nm (path_of fs nm wr date sid) rf wr.files h e);
        })
      ]

  rotated-OpensAt :
      (wr wr1 : RotatingDirMemoryWriter fs nm) (date ts archive sid : String)
      (q : fs.World × Result WriteError (RotatingFile fs nm))
      → IsOpenAt wr date sid small wr1
      → ((w' : fs.World) (rf' : RotatingFile fs nm) → q ≡ (w', ok rf') → rf'.written ≡ 0)
      → OpensAt wr date sid 0
          (rotated fs nm (within_day date ts archive) sid (path_of fs nm wr date sid) wr1 q)
  unfolding get_file path_of
  rotated-OpensAt wr wr1 date ts archive sid (w, err e) v zero_of = tt
  rotated-OpensAt wr wr1 date ts archive sid (w, ok rf) v zero_of =
      let path = path_of fs nm wr date sid in
      let self = lookup-insert_self path rf wr1.files in
      rw (v.path, self)
        (record {
          max = v.max;
          path = v.path;
          rf = rf;
          found = self;
          bound = omega (arith, zero_of w rf refl);
        })

  module _ (wr : RotatingDirMemoryWriter fs nm) (date ts archive sid entry : String)
      (limited : lt64 0 wr.max_size_bytes ≡ true) (sized : wr.max_size_bytes < 2 ^ 62)
      (le : nm.length entry ≤ wr.max_size_bytes) where
    -- Room for the entry below the limit.
    abbrev left : ℕ
    left = wr.max_size_bytes - nm.length entry

    weaken :
        (wr' : RotatingDirMemoryWriter fs nm)
        → IsOpenAt wr date sid 0 wr'
        → IsOpenAt wr date sid left wr'
    weaken wr' v = record {
      max = v.max;
      path = v.path;
      rf = v.rf;
      found = v.found;
      bound = omega (arith, v.bound);
    }

    weaken_opened : (o : Opened fs nm) → OpensAt wr date sid 0 o → OpensAt wr date sid left o
    weaken_opened (wr', w, err e) v = tt
    weaken_opened (wr', w, ok f) v = weaken wr' v

    checked_file-OpensAt :
        (wr1 : RotatingDirMemoryWriter fs nm) (w : fs.World) (f : fs.Handle)
        (v : IsOpenAt wr date sid small wr1) (path : String)
        → path ≡ path_of fs nm wr date sid
        → OpensAt wr date sid left
            (checked_file fs nm (within_day date ts archive) sid entry path wr1 w f (some v.rf))
    checked_file-OpensAt wr1 w f v path e = elim (Bool-cases (is_full fs nm wr1 v.rf entry)) [
      | inl full ↦
          rw (full, e)
            (weaken_opened
              (rotated fs nm (within_day date ts archive) sid (path_of fs nm wr date sid) wr1
                (rotate fs nm wr1.compress_old archive v.rf w))
              (rotated-OpensAt wr wr1 date ts archive sid
                (rotate fs nm wr1.compress_old archive v.rf w) v
                (λ w' rf' q. rotate-written fs nm wr1.compress_old archive v.rf rf' w w' q)))
      | inr room ↦ rw room (record {
        max = v.max;
        path = v.path;
        rf = v.rf;
        found = v.found;
        bound = omega (
          arith,
          fits wr.max_size_bytes v.rf.written (nm.length entry) sized (omega (arith, v.bound)) le
              (ap (λ m. lt64 m (add64 v.rf.written (nm.length entry))) (sym v.max) ∙ room),
        );
      })
    ]

    still_limited :
        (wr1 : RotatingDirMemoryWriter fs nm)
        → wr1.max_size_bytes ≡ wr.max_size_bytes
        → lt64 0 wr1.max_size_bytes ≡ true
    still_limited wr1 e = ap (lt64 0) e ∙ limited

    with_room-OpensAt :
        (o : Opened fs nm)
        → OpensAt wr date sid small o
        → OpensAt wr date sid left (with_room fs nm (within_day date ts archive) sid entry o)
    with_room-OpensAt (wr1, w, err e) v = tt
    with_room-OpensAt (wr1, w, ok f) v =
        rw (still_limited wr1 v.max, ap (λ p. lookup p wr1.files) v.path ∙ v.found)
          (checked_file-OpensAt wr1 w f v (path_of fs nm wr1 date sid) v.path)

    grown_bound :
        (wr2 : RotatingDirMemoryWriter fs nm) (v : IsOpenAt wr date sid left wr2) (path : String)
        (n : Int64) (rf' : RotatingFile fs nm)
        → path ≡ path_of fs nm wr date sid
        → n ≤ nm.length entry
        → lookup (path_of fs nm wr date sid) (counted_up fs nm path n wr2 (some v.rf)).files
          ≡ some rf'
        → rf'.written ≤ wr.max_size_bytes
    grown_bound wr2 v path n rf' e small_n found =
        let counted : RotatingFile fs nm = record v.rf { written = add64 v.rf.written n } in
        let self : lookup (path_of fs nm wr date sid) (insert path counted wr2.files)
            ≡ some counted =
          ap (λ p. lookup (path_of fs nm wr date sid) (insert p counted wr2.files)) e
          ∙ lookup-insert_self (path_of fs nm wr date sid) counted wr2.files in
        let same : rf' ≡ counted = cc (self, found) in
        let fit : add64 v.rf.written n ≤ wr.max_size_bytes =
          grown_exact wr.max_size_bytes v.rf.written n sized (omega (arith, v.bound)) in
        rw same fit

    wrote_bound :
        (wr2 : RotatingDirMemoryWriter fs nm) (v : IsOpenAt wr date sid left wr2)
        (q : fs.World × Int64 × Bool) (rf' : RotatingFile fs nm)
        → q.1 ≤ nm.length entry
        → (wrote fs nm (within_day date ts archive) sid wr2 q).2 ≡ ok tt
        → lookup
            (path_of fs nm wr date sid)
            (wrote fs nm (within_day date ts archive) sid wr2 q).0.files
          ≡ some rf'
        → rf'.written ≤ wr.max_size_bytes
    wrote_bound wr2 v (w, n, false) rf' small_n done found = absurd (cc)
    wrote_bound wr2 v (w, n, true) rf' small_n done found =
        let here = ap (λ p. lookup p wr2.files) v.path ∙ v.found in
        let path = path_of fs nm wr2 date sid in
        grown_bound wr2 v path n rf' v.path small_n (
          ap (λ o. lookup (path_of fs nm wr date sid) (counted_up fs nm path n wr2 o).files)
            (sym here)
          ∙ ap
              (λ t.
                lookup (path_of fs nm wr date sid)
                  (if t then counted_up fs nm path n wr2 (lookup path wr2.files) else wr2).files)
              (sym (still_limited wr2 v.max))
          ∙ found)

    written_to_bound :
        (o : Opened fs nm) (rf' : RotatingFile fs nm)
        → OpensAt wr date sid left o
        → (written_to fs nm (within_day date ts archive) sid entry o).2 ≡ ok tt
        → lookup
            (path_of fs nm wr date sid)
            (written_to fs nm (within_day date ts archive) sid entry o).0.files
          ≡ some rf'
        → rf'.written ≤ wr.max_size_bytes
    written_to_bound (wr2, w, err e) rf' v done found = absurd (cc)
    written_to_bound (wr2, w, ok f) rf' v done found =
        wrote_bound wr2 v (fs.write w f entry) rf' (laws.write-le w f entry) done found

    wrote-IsSmall :
        (max : Int64) (wr2 : RotatingDirMemoryWriter fs nm) (v : IsOpenAt wr date sid left wr2)
        (q : fs.World × Int64 × Bool)
        → q.1 ≤ nm.length entry
        → IsSmall fs nm max wr2
        → IsSmall fs nm max (wrote fs nm (within_day date ts archive) sid wr2 q).0
    wrote-IsSmall max wr2 v (w, n, false) small_n s = s
    wrote-IsSmall max wr2 v (w, n, true) small_n s =
        let path = path_of fs nm wr2 date sid in
        let fit : add64 v.rf.written n ≤ wr.max_size_bytes =
          grown_exact wr.max_size_bytes v.rf.written n sized (omega (arith, v.bound)) in
        rw (still_limited wr2 v.max, ap (λ p. lookup p wr2.files) v.path ∙ v.found)
          (record {
            limit = s.limit;
            counts = insert-small fs nm path _ wr2.files (omega (arith, fit, sized)) s.counts;
          })

    written_to-IsSmall :
        (max : Int64) (o : Opened fs nm)
        → OpensAt wr date sid left o
        → IsSmall fs nm max o.0
        → IsSmall fs nm max (written_to fs nm (within_day date ts archive) sid entry o).0
    written_to-IsSmall max (wr2, w, err e) v s = s
    written_to-IsSmall max (wr2, w, ok f) v s =
        wrote-IsSmall max wr2 v (fs.write w f entry) (laws.write-le w f entry) s

  pub append_entry_bound :
      (wr : RotatingDirMemoryWriter fs nm) (date ts archive sid entry : String) (w : fs.World)
      (rf : RotatingFile fs nm)
      → lt64 0 wr.max_size_bytes ≡ true
      → wr.max_size_bytes < 2 ^ 62
      → nm.length entry ≤ wr.max_size_bytes
      → FilesAreSmall fs nm wr.files
      → (append_entry fs nm (within_day date ts archive) sid entry wr w).2 ≡ ok tt
      → lookup
          (path_of fs nm wr date sid)
          (append_entry fs nm (within_day date ts archive) sid entry wr w).0.files
        ≡ some rf
      → rf.written ≤ wr.max_size_bytes
  unfolding append_entry
  append_entry_bound wr date ts archive sid entry w rf limited sized le small_files done found =
      let o = get_file fs nm date sid wr w in
      written_to_bound wr date ts archive sid entry limited sized le
        (with_room fs nm (within_day date ts archive) sid entry o) rf
        (with_room-OpensAt wr date ts archive sid entry limited sized le o
          (get_file-OpensAt wr date sid w small_files))
        done found

  pub append_entry-IsSmall :
      (max : Int64) (wr : RotatingDirMemoryWriter fs nm) (date ts archive sid entry : String)
      (w : fs.World)
      → lt64 0 max ≡ true
      → max < 2 ^ 62
      → nm.length entry ≤ max
      → IsSmall fs nm max wr
      → IsSmall fs nm max (append_entry fs nm (within_day date ts archive) sid entry wr w).0
  unfolding append_entry
  append_entry-IsSmall max wr date ts archive sid entry w limited sized le s =
      let o = get_file fs nm date sid wr w in
      let limited' = ap (lt64 0) s.limit ∙ limited in
      let sized' : wr.max_size_bytes < 2 ^ 62 = omega (arith, s.limit, sized) in
      let le' : nm.length entry ≤ wr.max_size_bytes = omega (arith, s.limit, le) in
      written_to-IsSmall wr date ts archive sid entry limited' sized' le' max
        (with_room fs nm (within_day date ts archive) sid entry o)
        (with_room-OpensAt wr date ts archive sid entry limited' sized' le' o
          (get_file-OpensAt wr date sid w s.counts))
        (with_room-IsSmall fs nm all_small max (within_day date ts archive) sid entry o
          (get_file-IsSmall fs nm all_small max date sid wr w s))
