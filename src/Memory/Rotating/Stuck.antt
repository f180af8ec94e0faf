-- ===== src/Memory/Rotating/Stuck.antt =====
-- A session whose file is gone from its place.
use tokenomics.Base.{String, Bool, true, false, List, [], ◌∷◌, some, Result, err, ◌≡◌, refl, All}
use tokenomics.Base.Eq.{string_eq}
use tokenomics.Base.Dict.{lookup}
use tokenomics.Base.Word.{lt64}
use tokenomics.Memory.Files.{Files, Names}
use tokenomics.Memory.Rotating.{
  Stamps, RotatingDirMemoryWriter, path_of, get_file, is_full, append_entry,
}
use tokenomics.Memory.Archive.{
  WriteError, rename_failed, RotatingFile, archive_path, archived, rotate,
}

-- One day's readings.
abbrev pub within_day : String → String → String → Stamps
within_day date entry archive = record {
  opened = date;
  checked = date;
  reopened = date;
  counted = date;
  entry = entry;
  archive = archive;
}

-- What is documented of a name that no file has: closing another file makes none of it, and renaming it
-- fails and makes none either.
pub record MissingLaws (fs : Files) (Missing : fs.World → String → Type 0) : Type 0 where
  pub close-Missing :
      (w : fs.World) (f : fs.Handle) (path : String)
      → Missing w path
      → Missing (fs.close w f).0 path
  pub rename-Missing :
      (w : fs.World) (path to : String) → Missing w path → Missing (fs.rename w path to).0 path
  pub rename_fails :
      (w : fs.World) (path to : String) → Missing w path → (fs.rename w path to).1 ≡ false

-- Entries with their stamps and those of an archive, appended one after the other on one day.
abbrev with_result : {A B R : Type 0} → R → A × B × List R → A × B × List R
with_result r (a, b, rs) = (a, b, r ∷ rs)

module _ (fs : Files) (nm : Names) where
  abbrev Results : Type 0
  Results = RotatingDirMemoryWriter fs nm × fs.World × List (Result WriteError (Unit {0}))

  unfoldable pub append_each :
      String
      → String
      → List (String × String × String)
      → RotatingDirMemoryWriter fs nm
      → fs.World
      → Results
  append_each date session_id [] wr w = (wr, w, [])
  append_each date session_id ((ts, archive, entry) ∷ es) wr w =
      let (wr', w', r) = append_entry fs nm (within_day date ts archive) session_id entry wr w in
      with_result r (append_each date session_id es wr' w')

module _ (fs : Files) (nm : Names) (Missing : fs.World → String → Type 0)
    (laws : MissingLaws fs Missing) where
  archived_failed :
      (compress : Bool) (archive : String) (rf : RotatingFile fs nm) (r : fs.World × Bool)
      → r.1 ≡ false
      → archived fs nm compress archive rf r ≡ (r.0, err rename_failed)
  archived_failed compress archive rf (w, true) e = absurd (cc)
  archived_failed compress archive rf (w, false) e = refl

  -- The world after the attempt to rotate.
  abbrev after_attempt : String → RotatingFile fs nm → fs.World → fs.World
  after_attempt stamp rf w =
      (fs.rename (fs.close w rf.file).0 rf.path (archive_path fs nm rf.path stamp)).0

  rotate_fails :
      (compress : Bool) (stamp : String) (rf : RotatingFile fs nm) (w : fs.World)
      → Missing w rf.path
      → rotate fs nm compress stamp rf w ≡ (after_attempt stamp rf w, err rename_failed)
  unfolding rotate
  rotate_fails compress stamp rf w m =
      archived_failed compress (archive_path fs nm rf.path stamp) rf
        (fs.rename (fs.close w rf.file).0 rf.path (archive_path fs nm rf.path stamp))
        (laws.rename_fails (fs.close w rf.file).0 rf.path (archive_path fs nm rf.path stamp)
          (laws.close-Missing w rf.file rf.path m))

  module _ (wr : RotatingDirMemoryWriter fs nm) (date session_id : String) (rf : RotatingFile fs nm)
      (found : lookup (path_of fs nm wr date session_id) wr.files ≡ some rf)
      (limited : lt64 0 wr.max_size_bytes ≡ true) where
    append_entry_fails :
        (ts archive entry : String) (w : fs.World)
        → is_full fs nm wr rf entry ≡ true
        → Missing w rf.path
        → append_entry fs nm (within_day date ts archive) session_id entry wr w
          ≡ (wr, after_attempt archive rf w, err rename_failed)
    unfolding append_entry get_file
    append_entry_fails ts archive entry w full m =
        rw (found, limited, found, full, rotate_fails wr.compress_old archive rf w m) refl

  with_result-failed :
      (wr : RotatingDirMemoryWriter fs nm) (r : Result WriteError (Unit {0})) (rs : Results fs nm)
      → r ≡ err rename_failed
      → (rs.0 ≡ wr) × All (λ q. q ≡ err rename_failed) rs.2
      → ((with_result r rs).0 ≡ wr) × All (λ q. q ≡ err rename_failed) (with_result r rs).2
  with_result-failed wr r (wr', w, rs) e h = (h.0, (e, h.1))

  -- Where the file of a session is at its limit and no longer in its place, as when the new file could not be
  -- opened after it was archived: every entry of that day for the session that would overfill it is
  -- refused, and the writer never recovers.
  pub append_each_fail :
      (es : List (String × String × String)) (wr : RotatingDirMemoryWriter fs nm)
      (date session_id : String) (rf : RotatingFile fs nm) (w : fs.World)
      → lookup (path_of fs nm wr date session_id) wr.files ≡ some rf
      → lt64 0 wr.max_size_bytes ≡ true
      → Missing w rf.path
      → All (λ e. is_full fs nm wr rf e.2 ≡ true) es
      → ((append_each fs nm date session_id es wr w).0 ≡ wr)
        × All (λ r. r ≡ err rename_failed) (append_each fs nm date session_id es wr w).2
  unfolding append_each
  append_each_fail [] wr date session_id rf w found limited m full = (refl, tt)
  append_each_fail ((ts, archive, entry) ∷ es) wr date session_id rf w found limited m full =
      let w' = after_attempt archive rf w in
      rw (append_entry_fails wr date session_id rf found limited ts archive entry w full.0 m) (
        with_result-failed wr (err rename_failed) (append_each fs nm date session_id es wr w') refl
          (append_each_fail es wr date session_id rf w' found limited
            (laws.rename-Missing (fs.close w rf.file).0 rf.path (archive_path fs nm rf.path archive)
              (laws.close-Missing w rf.file rf.path m))
            full.1))
