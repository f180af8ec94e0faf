-- ===== src/Memory/Plain/Unlimited.antt =====
-- The rotating writer without a limit is the writer that does not rotate.
use tokenomics.Base.{
  String, Bool, true, false, not, ◌&&◌, [], ◌∷◌, Option, none, some, Bool-cases, inl, inr, Result,
  ok, err, if◌then◌else◌, ◌≡◌, refl, sym, ap, ◌∙◌, map,
}
use tokenomics.Base.Eq.{string_eq, ◌==◌}
use tokenomics.Base.Dict.{Dict, lookup, insert}
use tokenomics.Base.Word.{Int64, lt64}
use tokenomics.Memory.Files.{Files, Names, safe_session_prefix, resolve_path, memory_entry}
use tokenomics.Memory.Rotating.{
  Stamps, RotatingDirMemoryWriter, path_of, close_stale, opened_at, within_dir, found_or_opened,
  get_file, Opened, with_room, wrote, written_to, append_entry, append,
}
use tokenomics.Memory.Archive.{WriteError, write_failed, RotatingFile}
use tokenomics.Memory.Plain.{
  DirMemoryWriter, close_outdated, Opening, kept_open, open_within, held_or_opened, session_file,
  entered, append_in,
}

module _ (fs : Files) (nm : Names) where
  abbrev handles : Dict String (RotatingFile fs nm) → Dict String fs.Handle
  handles m = map (λ (path, rf). (path, rf.file)) m

  -- A rotating writer without what it counts.
  abbrev pub plain : RotatingDirMemoryWriter fs nm → DirMemoryWriter fs nm
  plain wr = record { dir = wr.dir; pattern = wr.pattern; files = handles wr.files }

  abbrev plain_opened : Opened fs nm → Opening fs nm
  plain_opened (wr, w, r) = (plain wr, w, r)

  abbrev pub plain_result :
      RotatingDirMemoryWriter fs nm × fs.World × Result WriteError (Unit {0})
      → DirMemoryWriter fs nm × fs.World × Result WriteError (Unit {0})
  plain_result (wr, w, r) = (plain wr, w, r)

  abbrev file_of : Option (RotatingFile fs nm) → Option fs.Handle
  file_of none = none
  file_of (some rf) = some rf.file

  lookup-handles :
      (path : String) (m : Dict String (RotatingFile fs nm))
      → lookup path (handles m) ≡ file_of (lookup path m)
  unfolding lookup
  lookup-handles path [] = refl
  lookup-handles path ((p, rf) ∷ m) = elim (Bool-cases (p == path)) [
    | inl e ↦ rw e refl
    | inr e ↦ rw e (lookup-handles path m)
  ]

  insert-handles :
      (path : String) (rf : RotatingFile fs nm) (m : Dict String (RotatingFile fs nm))
      → handles (insert path rf m) ≡ insert path rf.file (handles m)
  unfolding insert
  insert-handles path rf [] = refl
  insert-handles path rf ((p, old) ∷ m) = elim (Bool-cases (p == path)) [
    | inl e ↦ rw e refl
    | inr e ↦ rw e (ap (λ l. (p, old.file) ∷ l) (insert-handles path rf m))
  ]

  abbrev plain_files :
      fs.World × Dict String (RotatingFile fs nm) → fs.World × Dict String fs.Handle
  plain_files (w, m) = (w, handles m)

  close_outdated-handles :
      (hash path : String) (m : Dict String (RotatingFile fs nm)) (w : fs.World)
      → plain_files (close_stale fs nm hash path m w) ≡ close_outdated fs nm hash path (handles m) w
  unfolding close_stale close_outdated
  close_outdated-handles hash path [] w = refl
  close_outdated-handles hash path ((p, rf) ∷ m) w =
      elim (Bool-cases (nm.contains p hash && not (p == path))) [
        | inl e ↦ rw e (close_outdated-handles hash path m (fs.close w rf.file).0)
        | inr e ↦ rw e (ap (λ q. (q.0, (p, rf.file) ∷ q.1)) (close_outdated-handles hash path m w))
      ]

  kept_open-plain :
      (path : String) (wr : RotatingDirMemoryWriter fs nm) (r : fs.World × Option fs.Handle)
      → plain_opened (opened_at fs nm path wr r) ≡ kept_open fs nm path (plain wr) r
  kept_open-plain path wr (w, none) = refl
  kept_open-plain path wr (w, some f) =
      ap (λ files. (record (plain wr) { files = files }, w, ok f)) (insert-handles path _ wr.files)

  open_within-plain :
      (path : String) (wr : RotatingDirMemoryWriter fs nm) (r : fs.World × Bool)
      → plain_opened (within_dir fs nm path wr r) ≡ open_within fs nm path (plain wr) r
  open_within-plain path wr (w, false) = refl
  open_within-plain path wr (w, true) = kept_open-plain path wr (fs.open_append w path)

  held_or_opened-plain :
      (path sid : String) (wr : RotatingDirMemoryWriter fs nm) (w : fs.World)
      (o : Option (RotatingFile fs nm))
      → plain_opened (found_or_opened fs nm path sid wr w o)
        ≡ held_or_opened fs nm path sid (plain wr) w (file_of o)
  held_or_opened-plain path sid wr w (some rf) = refl
  held_or_opened-plain path sid wr w none =
      let hash = safe_session_prefix sid 16 in
      let q = close_stale fs nm hash path wr.files w in
      open_within-plain path (record wr { files = q.1 })
        (if nm.dir_of path == wr.dir then (q.0, true) else fs.mkdir_all q.0 (nm.dir_of path))
      ∙ ap
          (λ r.
            open_within fs nm path (record (plain wr) { files = r.1 })
              (if nm.dir_of path == wr.dir then (r.0, true) else fs.mkdir_all r.0 (nm.dir_of path)))
          (close_outdated-handles hash path wr.files w)

  session_file-plain :
      (date sid : String) (wr : RotatingDirMemoryWriter fs nm) (w : fs.World)
      → plain_opened (get_file fs nm date sid wr w) ≡ session_file fs nm date sid (plain wr) w
  unfolding get_file session_file path_of
  session_file-plain date sid wr w =
      let path = resolve_path nm wr.dir wr.pattern date sid in
      held_or_opened-plain path sid wr w (lookup path wr.files)
      ∙ ap (held_or_opened fs nm path sid (plain wr) w) (sym (lookup-handles path wr.files))

  abbrev IsWithout : Opened fs nm → Type 0
  IsWithout (wr, w, r) = lt64 0 wr.max_size_bytes ≡ false

  opened_at-IsWithout :
      (path : String) (wr : RotatingDirMemoryWriter fs nm) (r : fs.World × Option fs.Handle)
      → lt64 0 wr.max_size_bytes ≡ false
      → IsWithout (opened_at fs nm path wr r)
  opened_at-IsWithout path wr (w, none) e = e
  opened_at-IsWithout path wr (w, some f) e = e

  within_dir-IsWithout :
      (path : String) (wr : RotatingDirMemoryWriter fs nm) (r : fs.World × Bool)
      → lt64 0 wr.max_size_bytes ≡ false
      → IsWithout (within_dir fs nm path wr r)
  within_dir-IsWithout path wr (w, false) e = e
  within_dir-IsWithout path wr (w, true) e = opened_at-IsWithout path wr (fs.open_append w path) e

  found_or_opened-IsWithout :
      (path sid : String) (wr : RotatingDirMemoryWriter fs nm) (w : fs.World)
      (o : Option (RotatingFile fs nm))
      → lt64 0 wr.max_size_bytes ≡ false
      → IsWithout (found_or_opened fs nm path sid wr w o)
  found_or_opened-IsWithout path sid wr w (some rf) e = e
  found_or_opened-IsWithout path sid wr w none e =
      let q = close_stale fs nm (safe_session_prefix sid 16) path wr.files w in
      within_dir-IsWithout path (record wr { files = q.1 })
        (if nm.dir_of path == wr.dir then (q.0, true) else fs.mkdir_all q.0 (nm.dir_of path)) e

  get_file-IsWithout :
      (date sid : String) (wr : RotatingDirMemoryWriter fs nm) (w : fs.World)
      → lt64 0 wr.max_size_bytes ≡ false
      → IsWithout (get_file fs nm date sid wr w)
  unfolding get_file
  get_file-IsWithout date sid wr w e =
      let path = path_of fs nm wr date sid in
      found_or_opened-IsWithout path sid wr w (lookup path wr.files) e

  wrote-entered :
      (st : Stamps) (sid : String) (wr : RotatingDirMemoryWriter fs nm)
      (q : fs.World × Int64 × Bool)
      → lt64 0 wr.max_size_bytes ≡ false
      → plain_result (wrote fs nm st sid wr q)
        ≡ (plain wr, q.0, if q.2 then ok tt else err write_failed)
  wrote-entered st sid wr (w, n, false) e = refl
  wrote-entered st sid wr (w, n, true) e = rw e refl

  written_to-entered :
      (st : Stamps) (sid entry : String) (o : Opened fs nm)
      → IsWithout o
      → plain_result (written_to fs nm st sid entry (with_room fs nm st sid entry o))
        ≡ entered fs nm entry (plain_opened o)
  written_to-entered st sid entry (wr, w, err x) e = refl
  written_to-entered st sid entry (wr, w, ok f) e =
      rw e (wrote-entered st sid wr (fs.write w f entry) e)

  -- Where the rotating writer has no limit, an append has the same outcome as that of the writer that does not
  -- rotate, leaves the file system in the same state, and the same files open.
  pub append-append_in :
      (st : Stamps) (session_id role model content : String) (wr : RotatingDirMemoryWriter fs nm)
      (w : fs.World)
      → lt64 0 wr.max_size_bytes ≡ false
      → plain_result (append fs nm st session_id role model content wr w)
        ≡ append_in fs nm st.opened st.entry session_id role model content (plain wr) w
  unfolding append append_in append_entry
  append-append_in st session_id role model content wr w e =
      let entry = memory_entry nm st.entry session_id role model content in
      written_to-entered st session_id entry (get_file fs nm st.opened session_id wr w)
        (get_file-IsWithout st.opened session_id wr w e)
      ∙ ap (entered fs nm entry) (session_file-plain st.opened session_id wr w)
