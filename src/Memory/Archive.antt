-- ===== src/Memory/Archive.antt =====
-- `rotate` and `compressFile` of internal/session/memory_writer.go.
use tokenomics.Base.{
  String, Bool, true, false, ◌&&◌, Option, none, some, Result, ok, err, if◌then◌else◌, ◌-◌,
}
use Prim.Native.String.{len, slice, ◌++◌ as ◌+++◌}
use tokenomics.Base.Eq.{string_eq}
use tokenomics.Base.Word.{Int64}
use tokenomics.Memory.Files.{Files, Names}

pub data WriteError : Type 0 where
  subdirectory_failed open_failed rename_failed reopen_failed write_failed : WriteError

module _ (fs : Files) (nm : Names) where
  open fs use {
    World, Handle, mkdir_all, open_append, open_new, open_read, create, size, write, close, rename,
    remove, gzip_copy, gzip_close,
  }

  pub record RotatingFile : Type 0 where
    pub path : String
    pub file : Handle
    pub written : Int64

  -- `compressFile`, with its deferred calls.
  abbrev closed_both : Handle → Handle → World → World
  closed_both src dst w = (close (close (gzip_close w dst).0 dst).0 src).0

  abbrev gzip_to : String → String → Handle → Handle → World × Bool → World × Bool
  gzip_to path gz_path src dst (w, false) = (closed_both src dst (remove w gz_path).0, false)
  gzip_to path gz_path src dst (w, true) =
      let (w', flushed) = gzip_close w dst in
      let (w'', removed) = remove w' (if flushed then path else gz_path) in
      (closed_both src dst w'', flushed && removed)

  abbrev gz_created : String → String → Handle → World × Option Handle → World × Bool
  gz_created path gz_path src (w, none) = ((close w src).0, false)
  gz_created path gz_path src (w, some dst) = gzip_to path gz_path src dst (gzip_copy w src dst)

  abbrev read_opened : String → World × Option Handle → World × Bool
  read_opened path (w, none) = (w, false)
  read_opened path (w, some src) =
      let gz_path = path +++ ".gz" in gz_created path gz_path src (create w gz_path)

  unfoldable pub compress_file : String → World → World × Bool
  compress_file path w = read_opened path (open_read w path)

  unfoldable pub archive_path : String → String → String
  archive_path path stamp =
      let ext = nm.ext_of path in slice path 0 (len path - len ext) +++ "." +++ stamp +++ ext

  abbrev pub reopened_at :
      RotatingFile → World × Option Handle → World × Result WriteError RotatingFile
  reopened_at rf (w, none) = (w, err reopen_failed)
  reopened_at rf (w, some f) = (w, ok (record rf { file = f; written = 0 }))

  abbrev pub archived :
      Bool → String → RotatingFile → World × Bool → World × Result WriteError RotatingFile
  archived compress_old archive rf (w, false) = (w, err rename_failed)
  archived compress_old archive rf (w, true) =
      reopened_at rf (open_new (if compress_old then (compress_file archive w).0 else w) rf.path)

  -- `rotate`; the archive's compression may fail. Where it returns an error, the file is left as it was,
  -- but closed.
  unfoldable pub rotate :
      Bool → String → RotatingFile → World → World × Result WriteError RotatingFile
  rotate compress_old stamp rf w =
      let archive = archive_path rf.path stamp in
      archived compress_old archive rf (rename (close w rf.file).0 rf.path archive)
