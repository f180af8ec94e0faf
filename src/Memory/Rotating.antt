-- ===== src/Memory/Rotating.antt =====
-- `RotatingDirMemoryWriter`: a file for each session, archived when it grows past a size. The mutex makes
-- each method one step; the readings of the clock are arguments.
pub mod Stuck
pub mod Small
pub mod Bounds
pub mod Appends
use tokenomics.Base.{
  String, Bool, true, false, not, ◌&&◌, List, [], ◌∷◌, Option, none, some, Result, ok, err, ◌>>=◌,
  if◌then◌else◌, ℕ, ◌*◌, ◌-◌,
}
use Prim.Native.Nat.{◌%◌}
use Prim.Native.String.{len, slice, ◌++◌ as ◌+++◌}
use tokenomics.Base.Eq.{string_eq, ◌==◌}
use tokenomics.Base.Dict.{Dict, lookup, insert, erase, or_default}
use tokenomics.Base.Word.{Int64, add64, lt64, word_mod}
use tokenomics.Memory.Files.{Files, Names, safe_session_prefix, resolve_path, memory_entry}
use tokenomics.Memory.Archive.{
  RotatingFile, WriteError, archive_path, archived, compress_file, open_failed, rename_failed,
  reopen_failed, rotate, subdirectory_failed, write_failed,
}

-- The dates at which a path is resolved in one `Append`, the stamp of the entry and that of an archive.
pub record Stamps : Type 0 where
  pub opened : String
  pub checked : String
  pub reopened : String
  pub counted : String
  pub entry : String
  pub archive : String

module _ (fs : Files) (nm : Names) where
  open fs use {
    World, Handle, mkdir_all, open_append, open_new, open_read, create, size, write, close, rename,
    remove, gzip_copy, gzip_close,
  }

  pub record RotatingDirMemoryWriter : Type 0 where
    pub dir : String
    pub pattern : String
    pub max_size_bytes : Int64
    pub compress_old : Bool
    pub files : Dict String (RotatingFile fs nm)

  -- Megabytes, as an int64: the default is 100, and a negative number is no limit.
  unfoldable pub max_size_of : Int64 → Int64
  max_size_of max_size_mb =
      if lt64 0 max_size_mb
      then max_size_mb * 1048576 % word_mod
      else if lt64 max_size_mb 0
      then 0
      else 104857600

  unfoldable pub new_rotating_dir_memory_writer :
      String → String → Int64 → Bool → World → World × Option RotatingDirMemoryWriter
  new_rotating_dir_memory_writer dir pattern max_size_mb compress_old w =
      let (w', made) = mkdir_all w dir in
      (
        w',
        if made
            then some (record {
              dir = dir;
              pattern = if pattern == "" then "{token_hash}.md" else pattern;
              max_size_bytes = max_size_of max_size_mb;
              compress_old = compress_old;
              files = [];
            })
            else none,
      )

  unfoldable pub path_of : RotatingDirMemoryWriter → String → String → String
  path_of rw date session_id = resolve_path nm rw.dir rw.pattern date session_id

  -- The files of the session at other paths, as after midnight, are closed and forgotten.
  abbrev is_outdated : String → String → String → Bool
  is_outdated hash path existing = nm.contains existing hash && not (existing == path)

  unfoldable pub close_stale :
      String
      → String
      → Dict String (RotatingFile fs nm)
      → World
      → World × Dict String (RotatingFile fs nm)
  close_stale hash path [] w = (w, [])
  close_stale hash path ((existing, rf) ∷ files) w =
      let stale = is_outdated hash path existing in
      let (w', files') = close_stale hash path files (if stale then (close w rf.file).0 else w) in
      (w', if stale then files' else (existing, rf) ∷ files')

  abbrev pub opened_at :
      String
      → RotatingDirMemoryWriter
      → World × Option Handle
      → RotatingDirMemoryWriter × World × Result WriteError Handle
  opened_at path rw (w, none) = (rw, w, err open_failed)
  opened_at path rw (w, some f) = (
    record rw {
      files =
          insert path (record { path = path; file = f; written = or_default 0 (size w f) })
            rw.files;
    },
    w,
    ok f,
  )

  abbrev pub within_dir :
      String
      → RotatingDirMemoryWriter
      → World × Bool
      → RotatingDirMemoryWriter × World × Result WriteError Handle
  within_dir path rw (w, made) =
      if made then opened_at path rw (open_append w path) else (rw, w, err subdirectory_failed)

  abbrev pub found_or_opened :
      String
      → String
      → RotatingDirMemoryWriter
      → World
      → Option (RotatingFile fs nm)
      → RotatingDirMemoryWriter × World × Result WriteError Handle
  found_or_opened path session_id rw w (some rf) = (rw, w, ok rf.file)
  found_or_opened path session_id rw w none =
      let (w', files) = close_stale (safe_session_prefix session_id 16) path rw.files w in
      within_dir path (record rw { files = files })
        (if nm.dir_of path == rw.dir then (w', true) else mkdir_all w' (nm.dir_of path))

  unfoldable pub get_file :
      String
      → String
      → RotatingDirMemoryWriter
      → World
      → RotatingDirMemoryWriter × World × Result WriteError Handle
  get_file date session_id rw w =
      let path = path_of rw date session_id in
      found_or_opened path session_id rw w (lookup path rw.files)

  abbrev pub Opened : Type 0
  Opened = RotatingDirMemoryWriter × World × Result WriteError Handle

  abbrev pub rotated :
      Stamps
      → String
      → String
      → RotatingDirMemoryWriter
      → World × Result WriteError (RotatingFile fs nm)
      → Opened
  rotated st session_id path rw (w, err e) = (rw, w, err e)
  rotated st session_id path rw (w, ok rf) =
      get_file st.reopened session_id (record rw { files = insert path rf rw.files }) w

  abbrev pub is_full : RotatingDirMemoryWriter → RotatingFile fs nm → String → Bool
  is_full rw rf entry = lt64 rw.max_size_bytes (add64 rf.written (nm.length entry))

  abbrev pub checked_file :
      Stamps
      → String
      → String
      → String
      → RotatingDirMemoryWriter
      → World
      → Handle
      → Option (RotatingFile fs nm)
      → Opened
  checked_file st session_id entry path rw w f none = (rw, w, ok f)
  checked_file st session_id entry path rw w f (some rf) =
      if is_full rw rf entry
      then rotated st session_id path rw (rotate fs nm rw.compress_old st.archive rf w)
      else (rw, w, ok f)

  -- The rotation, where there is a limit.
  abbrev pub with_room : Stamps → String → String → Opened → Opened
  with_room st session_id entry (rw, w, err e) = (rw, w, err e)
  with_room st session_id entry (rw, w, ok f) =
      let path = path_of rw st.checked session_id in
      if lt64 0 rw.max_size_bytes
      then checked_file st session_id entry path rw w f (lookup path rw.files)
      else (rw, w, ok f)

  abbrev pub counted_up :
      String
      → Int64
      → RotatingDirMemoryWriter
      → Option (RotatingFile fs nm)
      → RotatingDirMemoryWriter
  counted_up path n rw none = rw
  counted_up path n rw (some rf) = record rw {
    files = insert path (record rf { written = add64 rf.written n }) rw.files;
  }

  abbrev pub wrote :
      Stamps
      → String
      → RotatingDirMemoryWriter
      → World × Int64 × Bool
      → RotatingDirMemoryWriter × World × Result WriteError (Unit {0})
  wrote st session_id rw (w, n, false) = (rw, w, err write_failed)
  wrote st session_id rw (w, n, true) =
      let path = path_of rw st.counted session_id in
      (
        if lt64 0 rw.max_size_bytes then counted_up path n rw (lookup path rw.files) else rw,
        w,
        ok tt,
      )

  abbrev pub written_to :
      Stamps
      → String
      → String
      → Opened
      → RotatingDirMemoryWriter × World × Result WriteError (Unit {0})
  written_to st session_id entry (rw, w, err e) = (rw, w, err e)
  written_to st session_id entry (rw, w, ok f) = wrote st session_id rw (write w f entry)

  unfoldable pub append_entry :
      Stamps
      → String
      → String
      → RotatingDirMemoryWriter
      → World
      → RotatingDirMemoryWriter × World × Result WriteError (Unit {0})
  append_entry st session_id entry rw w =
      written_to st session_id entry
        (with_room st session_id entry (get_file st.opened session_id rw w))

  -- `Append`; the entry is made once the file is open, of values that do not depend on it.
  unfoldable pub append :
      Stamps
      → String
      → String
      → String
      → String
      → RotatingDirMemoryWriter
      → World
      → RotatingDirMemoryWriter × World × Result WriteError (Unit {0})
  append st session_id role model content rw w =
      append_entry st session_id (memory_entry nm st.entry session_id role model content) rw w

  unfoldable pub close_files : Dict String (RotatingFile fs nm) → World → World × Bool
  close_files [] w = (w, true)
  close_files ((path, rf) ∷ files) w =
      let (w', closed) = close w rf.file in
      let (w'', others) = close_files files w' in (w'', closed && others)

  unfoldable pub close_writer :
      RotatingDirMemoryWriter → World → RotatingDirMemoryWriter × World × Bool
  close_writer rw w =
      let (w', closed) = close_files rw.files w in (record rw { files = [] }, w', closed)
