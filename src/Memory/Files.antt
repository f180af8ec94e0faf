-- ===== src/Memory/Files.antt =====
-- What the memory writers ask of packages os, path/filepath, strings and compress/gzip, and what they write.
use tokenomics.Base.{String, Bool, Option, ℕ, if◌then◌else◌, ltb}
use Prim.Native.String.{len, slice, ◌++◌ as ◌+++◌}
use tokenomics.Base.Word.{Int64}

-- The file system, in a world that every call changes; `false` and `none` are errors. A write tells how many
-- bytes it has written.
pub record Files : Type 1 where
  pub World : Type 0
  pub Handle : Type 0
  pub mkdir_all : World → String → World × Bool
  pub open_append : World → String → World × Option Handle
  pub open_new : World → String → World × Option Handle
  pub open_read : World → String → World × Option Handle
  pub create : World → String → World × Option Handle
  pub size : World → Handle → Option Int64
  pub write : World → Handle → String → World × Int64 × Bool
  pub close : World → Handle → World × Bool
  pub rename : World → String → String → World × Bool
  pub remove : World → String → World × Bool
  pub gzip_copy : World → Handle → Handle → World × Bool
  pub gzip_close : World → Handle → World × Bool

-- Names of files, and texts. `length` is `len` of a text, as an int64.
pub record Names : Type 0 where
  pub replace_all : String → String → String → String
  pub join : String → String → String
  pub dir_of : String → String
  pub ext_of : String → String
  pub contains : String → String → Bool
  pub length : String → Int64
  pub sanitize : String → String

unfoldable pub safe_session_prefix : String → ℕ → String
safe_session_prefix s n = if ltb n (len s) then slice s 0 n else s

module _ (nm : Names) where
  -- `ResolvePath`, with the date.
  unfoldable pub resolve_path : String → String → String → String → String
  resolve_path dir pattern date session_id =
      let prefix = safe_session_prefix session_id 16 in
      nm.join dir (
        nm.replace_all
          (nm.replace_all (nm.replace_all pattern "{token_hash}" prefix) "{session_id}" prefix)
          "{date}" date)

  unfoldable pub memory_entry : String → String → String → String → String → String
  memory_entry ts session_id role model content =
      "## "
      +++ ts
      +++ " | "
      +++ safe_session_prefix session_id 16
      +++ " | "
      +++ role
      +++ " | "
      +++ model
      +++ "\n\n"
      +++ nm.sanitize content
      +++ "\n\n---\n\n"
