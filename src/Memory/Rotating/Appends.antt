-- ===== src/Memory/Rotating/Appends.antt =====
-- What a new writer's files have grown to after any entries.
use tokenomics.Base.{
  String, Bool, true, false, Option, none, some, List, [], ◌∷◌, All, ok, ◌≡◌, refl, ap, ◌∙◌, ◌≤◌,
  ◌<◌, ◌^◌, subst, sym, if◌then◌else◌,
}
use tokenomics.Base.Eq.{string_eq, ◌==◌}
use tokenomics.Base.Dict.{lookup}
use tokenomics.Base.Word.{Int64, lt64}
use tokenomics.Memory.Files.{Files, Names}
use tokenomics.Memory.Archive.{RotatingFile}
use tokenomics.Memory.Rotating.{
  RotatingDirMemoryWriter, new_rotating_dir_memory_writer, max_size_of, path_of, append_entry,
}
use tokenomics.Memory.Rotating.Stuck.{within_day}
use tokenomics.Memory.Rotating.Small.{AreSmall, FilesAreSmall, IsSmall}
use tokenomics.Memory.Rotating.Bounds.{WriteLaws, append_entry_bound, append_entry-IsSmall}

-- An entry with its session, and the readings of the clock at its append, all of one day.
pub record AppendedEntry : Type 0 where
  pub date : String
  pub stamp : String
  pub archive : String
  pub session_id : String
  pub text : String

module _ (fs : Files) (nm : Names) where
  abbrev pub append_one :
      AppendedEntry
      → RotatingDirMemoryWriter fs nm × fs.World
      → RotatingDirMemoryWriter fs nm × fs.World
  append_one e (wr, w) =
      let (wr', w', r) =
        append_entry fs nm (within_day e.date e.stamp e.archive) e.session_id e.text wr w in
      (wr', w')

  -- Entries one after the other, whether or not they can be appended.
  unfoldable pub append_all :
      List AppendedEntry
      → RotatingDirMemoryWriter fs nm × fs.World
      → RotatingDirMemoryWriter fs nm × fs.World
  append_all [] s = s
  append_all (e ∷ es) s = append_all es (append_one e s)

module _ (fs : Files) (nm : Names) (laws : WriteLaws fs nm) (all_small : AreSmall fs) where
  append_all-IsSmall :
      (max : Int64) (es : List AppendedEntry) (s : RotatingDirMemoryWriter fs nm × fs.World)
      → lt64 0 max ≡ true
      → max < 2 ^ 62
      → All (λ e. nm.length e.text ≤ max) es
      → IsSmall fs nm max s.0
      → IsSmall fs nm max (append_all fs nm es s).0
  unfolding append_all
  append_all-IsSmall max [] s limited sized les v = v
  append_all-IsSmall max (e ∷ es) (wr, w) limited sized les v =
      append_all-IsSmall max es (append_one fs nm e (wr, w)) limited sized les.1 (
        append_entry-IsSmall fs nm laws all_small max wr e.date e.stamp e.archive e.session_id
          e.text w limited sized les.0 v)

  new-FilesAreSmall :
      (dir pattern : String) (mb : Int64) (compress : Bool) (w w' : fs.World)
      (wr : RotatingDirMemoryWriter fs nm)
      → new_rotating_dir_memory_writer fs nm dir pattern mb compress w ≡ (w', some wr)
      → FilesAreSmall fs nm wr.files
  unfolding new_rotating_dir_memory_writer
  new-FilesAreSmall dir pattern mb compress w w' wr e = go (fs.mkdir_all w dir).1 (ap (λ q. q.1) e)
    where
      files_of : Option (RotatingDirMemoryWriter fs nm) → Type 0
      files_of none = Unit
      files_of (some x) = FilesAreSmall fs nm x.files

      go :
          (made : Bool)
          → (if made
              then some (record {
                dir = dir;
                pattern = if pattern == "" then "{token_hash}.md" else pattern;
                max_size_bytes = max_size_of fs nm mb;
                compress_old = compress;
                files = [];
              })
              else none)
            ≡ some wr
          → FilesAreSmall fs nm wr.files
      go true h = subst files_of h tt
      go false h = absurd (cc h)

  -- In a file system where no file holds 2 ^ 62 bytes or more: for a new writer with a limit, below
  -- 2 ^ 62 bytes, and after any entries of any sessions, each no larger than the limit and appended within a
  -- day, whether or not their appends failed: once such an entry is appended without an error, what the writer counts as
  -- written to its session's file is not above the limit.
  pub append_all_bound :
      (dir pattern : String) (mb : Int64) (compress : Bool) (w w' : fs.World)
      (wr : RotatingDirMemoryWriter fs nm) (es : List AppendedEntry) (e : AppendedEntry)
      (rf : RotatingFile fs nm)
      → new_rotating_dir_memory_writer fs nm dir pattern mb compress w ≡ (w', some wr)
      → lt64 0 wr.max_size_bytes ≡ true
      → wr.max_size_bytes < 2 ^ 62
      → All (λ e. nm.length e.text ≤ wr.max_size_bytes) es
      → nm.length e.text ≤ wr.max_size_bytes
      → (append_entry fs nm
          (within_day e.date e.stamp e.archive)
          e.session_id
          e.text
          (append_all fs nm es (wr, w')).0
          (append_all fs nm es (wr, w')).1).2
        ≡ ok tt
      → lookup
          (path_of fs nm (append_all fs nm es (wr, w')).0 e.date e.session_id)
          (append_entry fs nm
            (within_day e.date e.stamp e.archive)
            e.session_id
            e.text
            (append_all fs nm es (wr, w')).0
            (append_all fs nm es (wr, w')).1).0.files
        ≡ some rf
      → rf.written ≤ wr.max_size_bytes
  append_all_bound dir pattern mb compress w w' wr es e rf made limited sized les le done found =
      let max = wr.max_size_bytes in
      let s = append_all fs nm es (wr, w') in
      let v =
        append_all-IsSmall max es (wr, w') limited sized les
          (record {
            limit = refl;
            counts = new-FilesAreSmall dir pattern mb compress w w' wr made;
          }) in
      subst (λ n. rf.written ≤ n) v.limit
        (append_entry_bound fs nm laws all_small s.0 e.date e.stamp e.archive e.session_id e.text
          s.1 rf (ap (lt64 0) v.limit ∙ limited) (subst (λ n. n < 2 ^ 62) (sym v.limit) sized)
          (subst (λ n. nm.length e.text ≤ n) (sym v.limit) le) v.counts done found)
