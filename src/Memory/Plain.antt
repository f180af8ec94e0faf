-- ===== src/Memory/Plain.antt =====
-- The writers without an archive: a file for each session, one file for all, and a Redis list.
pub mod Unlimited
use tokenomics.Base.{
  String, Bool, true, false, not, ◌&&◌, List, [], ◌∷◌, Option, none, some, Result, ok, err,
  if◌then◌else◌,
}
use Prim.Native.String.{◌++◌ as ◌+++◌}
use tokenomics.Base.Eq.{string_eq, ◌==◌}
use tokenomics.Base.Dict.{Dict, lookup, insert}
use tokenomics.Memory.Files.{Files, Names, safe_session_prefix, resolve_path, memory_entry}
use tokenomics.Memory.Archive.{WriteError, subdirectory_failed, open_failed, write_failed}

module _ (fs : Files) (nm : Names) where
  open fs use {World, Handle, mkdir_all, open_append, write, close}

  -- `FileMemoryWriter`
  unfoldable pub new_file_memory_writer : String → World → World × Option Handle
  new_file_memory_writer path w = open_append w path

  unfoldable pub append_to :
      String → String → String → String → String → Handle → World → World × Bool
  append_to ts session_id role model content f w =
      let (w', n, written) = write w f (memory_entry nm ts session_id role model content) in
      (w', written)

  -- `DirMemoryWriter`
  pub record DirMemoryWriter : Type 0 where
    pub dir : String
    pub pattern : String
    pub files : Dict String Handle

  unfoldable pub new_dir_memory_writer : String → String → World → World × Option DirMemoryWriter
  new_dir_memory_writer dir pattern w =
      let (w', made) = mkdir_all w dir in
      (
        w',
        if made
            then some (record {
              dir = dir;
              pattern = if pattern == "" then "{token_hash}.md" else pattern;
              files = [];
            })
            else none,
      )

  unfoldable pub close_outdated :
      String → String → Dict String Handle → World → World × Dict String Handle
  close_outdated hash path [] w = (w, [])
  close_outdated hash path ((existing, f) ∷ files) w =
      let stale = nm.contains existing hash && not (existing == path) in
      let (w', files') = close_outdated hash path files (if stale then (close w f).0 else w) in
      (w', if stale then files' else (existing, f) ∷ files')

  abbrev pub Opening : Type 0
  Opening = DirMemoryWriter × World × Result WriteError Handle

  abbrev pub kept_open : String → DirMemoryWriter → World × Option Handle → Opening
  kept_open path dw (w, none) = (dw, w, err open_failed)
  kept_open path dw (w, some f) = (record dw { files = insert path f dw.files }, w, ok f)

  abbrev pub open_within : String → DirMemoryWriter → World × Bool → Opening
  open_within path dw (w, made) =
      if made then kept_open path dw (open_append w path) else (dw, w, err subdirectory_failed)

  abbrev pub held_or_opened : String → String → DirMemoryWriter → World → Option Handle → Opening
  held_or_opened path session_id dw w (some f) = (dw, w, ok f)
  held_or_opened path session_id dw w none =
      let (w', files) = close_outdated (safe_session_prefix session_id 16) path dw.files w in
      open_within path (record dw { files = files })
        (if nm.dir_of path == dw.dir then (w', true) else mkdir_all w' (nm.dir_of path))

  unfoldable pub session_file : String → String → DirMemoryWriter → World → Opening
  session_file date session_id dw w =
      let path = resolve_path nm dw.dir dw.pattern date session_id in
      held_or_opened path session_id dw w (lookup path dw.files)

  abbrev pub entered : String → Opening → DirMemoryWriter × World × Result WriteError (Unit {0})
  entered entry (dw, w, err e) = (dw, w, err e)
  entered entry (dw, w, ok f) =
      let (w', n, written) = write w f entry in
      (dw, w', if written then ok tt else err write_failed)

  unfoldable pub append_in :
      String
      → String
      → String
      → String
      → String
      → String
      → DirMemoryWriter
      → World
      → DirMemoryWriter × World × Result WriteError (Unit {0})
  append_in date ts session_id role model content dw w =
      entered (memory_entry nm ts session_id role model content) (session_file date session_id dw w)

  unfoldable pub close_handles : Dict String Handle → World → World × Bool
  close_handles [] w = (w, true)
  close_handles ((path, f) ∷ files) w =
      let (w', closed) = close w f in
      let (w'', others) = close_handles files w' in (w'', closed && others)

  unfoldable pub close_dir_writer : DirMemoryWriter → World → DirMemoryWriter × World × Bool
  close_dir_writer dw w =
      let (w', closed) = close_handles dw.files w in (record dw { files = [] }, w', closed)

  -- `RedisMemoryWriter`: the key and the entry that are pushed.
  unfoldable pub redis_entry : String → String → String → String → String → String × String
  redis_entry ts session_id role model content = (
    "tokenomics:memory:" +++ session_id,
    "## " +++ ts +++ " | " +++ role +++ " | " +++ model +++ "\n\n" +++ nm.sanitize content,
  )
