-- ===== src/Memory/Tests.antt =====
-- Bytes that are runes, and a directory of one file.
use tokenomics.Base.{
  String, Bool, true, false, Bool-cases, inl, inr, List, [], ◌∷◌, ◌++◌, some, ok, err,
  if◌then◌else◌, ℕ, ◌≤◌, ◌≡◌, refl, ap, arith, length, All,
}
use Prim.Native.String.{len, ◌++◌ as ◌+++◌}
use tokenomics.Base.Eq.{string_eq, nat_eq, ◌==◌}
use tokenomics.Base.Dict.{lookup, insert}
use tokenomics.Base.Word.{lt64, add64}
use tokenomics.Memory.Files.{Files, Names, safe_session_prefix, resolve_path}
use tokenomics.Memory.Sanitize.{
  Utf8, rune_error, is_invalid, is_disallowed_control_rune, sanitize_from, needs_from,
  needs_sanitization, sanitize_memory_content,
}
use tokenomics.Memory.Sanitize.Clean.{
  IsText, runes, Utf8Laws, sanitize_from-needs_from, sanitize_memory_content-clean,
}
use tokenomics.Memory.Rotating.{
  new_rotating_dir_memory_writer, max_size_of, RotatingDirMemoryWriter, path_of, get_file,
  close_stale, append_entry, append,
}
use tokenomics.Memory.Archive.{rename_failed, RotatingFile, rotate, archive_path}
use tokenomics.Memory.Rotating.Stuck.{within_day, MissingLaws, append_each, append_each_fail}
use tokenomics.Memory.Rotating.Bounds.{WriteLaws}
use tokenomics.Memory.Rotating.Appends.{AppendedEntry, append_all, append_all_bound}
use tokenomics.Memory.Plain.{append_in}
use tokenomics.Memory.Plain.Unlimited.{plain, plain_result, append-append_in}

abbrev first_byte : List ℕ → ℕ × ℕ
first_byte [] = (rune_error, 0)
first_byte (b ∷ bs) = (b, 1)

abbrev byte_of : ℕ → List ℕ
byte_of r = if r == rune_error then 239 ∷ 191 ∷ 189 ∷ [] else r ∷ []

abbrev bytes : Utf8
bytes = record { decode = first_byte; encode = byte_of }

byte_of_nonempty : (r : ℕ) → (b : ℕ) × (bs : List ℕ) × (byte_of r ≡ b ∷ bs)
byte_of_nonempty r = elim (Bool-cases (r == rune_error)) [
  | inl e ↦ rw e (239, 191 ∷ 189 ∷ [], refl)
  | inr e ↦ rw e (r, [], refl)
]

first_byte-byte_of :
    (b : ℕ) (rest : List ℕ)
    → is_invalid (b, 1) ≡ false
    → first_byte (byte_of b ++ rest) ≡ (b, length (byte_of b))
first_byte-byte_of b rest h = elim (Bool-cases (b == rune_error)) [
  | inl e ↦ absurd (cc (e, h))
  | inr e ↦ rw e refl
]

abbrev bytes_laws : Utf8Laws bytes
bytes_laws = record {
  size_pos = λ b bs. omega arith;
  decode_question = λ rest. refl;
  decode_space = λ rest. refl;
  encode_nonempty = byte_of_nonempty;
  encode_error = refl;
  decode-encode = λ b bs rest h. first_byte-byte_of b rest h;
}

-- "a", a bell, a line end.
abbrev with_bell : List ℕ
with_bell = 97 ∷ 7 ∷ 10 ∷ []

bell_replaced : sanitize_memory_content bytes with_bell ≡ 97 ∷ 32 ∷ 10 ∷ []
unfolding sanitize_memory_content needs_sanitization needs_from sanitize_from
    is_disallowed_control_rune
bell_replaced = refl

sanitize_memory_content-clean_example :
    All IsText (runes bytes (sanitize_memory_content bytes with_bell))
    × (sanitize_memory_content bytes (sanitize_memory_content bytes with_bell)
        ≡ sanitize_memory_content bytes with_bell)
sanitize_memory_content-clean_example = sanitize_memory_content-clean bytes bytes_laws with_bell

sanitize_from-needs_from_example :
    (sanitize_from bytes 9 with_bell ≡ sanitize_from bytes 3 with_bell)
    × (needs_from bytes 9 with_bell ≡ needs_sanitization bytes with_bell)
sanitize_from-needs_from_example =
    sanitize_from-needs_from bytes bytes_laws 9 with_bell (omega arith)

abbrev disk : Bool → Files
disk renames = record {
  World = Unit {0};
  Handle = Unit {0};
  mkdir_all = λ w path. (w, true);
  open_append = λ w path. (w, some tt);
  open_new = λ w path. (w, some tt);
  open_read = λ w path. (w, some tt);
  create = λ w path. (w, some tt);
  size = λ w f. some 5;
  write = λ w f s. (w, len s, true);
  close = λ w f. (w, true);
  rename = λ w path to. (w, renames);
  remove = λ w path. (w, true);
  gzip_copy = λ w src dst. (w, true);
  gzip_close = λ w f. (w, true);
}

abbrev names : Names
names = record {
  replace_all = λ s from to. s;
  join = λ dir name. dir +++ "/" +++ name;
  dir_of = λ path. "m";
  ext_of = λ path. "";
  contains = λ s part. false;
  length = λ s. len s;
  sanitize = λ s. s;
}

abbrev writer :
    (renames : Bool)
    → ℕ
    → List (String × RotatingFile (disk renames) names)
    → RotatingDirMemoryWriter (disk renames) names
writer renames max files = record {
  dir = "m";
  pattern = "p";
  max_size_bytes = max;
  compress_old = true;
  files = files;
}

abbrev of_size : (renames : Bool) → ℕ → RotatingFile (disk renames) names
of_size renames n = record { path = "m/p"; file = tt; written = n }

abbrev disk_writes : WriteLaws (disk true) names
disk_writes = record { write-le = λ w f s. omega arith }

rotated_once :
    append_entry (disk true) names (within_day "d" "t" "a") "s" "## entry" (writer true 10 []) tt
    ≡ (writer true 10 (("m/p", of_size true 8) ∷ []), tt, ok tt)
unfolding append_entry get_file path_of resolve_path close_stale lookup insert rotate archive_path
    safe_session_prefix lt64 add64
rotated_once = refl

-- A writer of one megabyte, and two entries of a session.
abbrev hello : AppendedEntry
hello = record { date = "d"; stamp = "t"; archive = "a"; session_id = "s"; text = "## entry" }

made :
    new_rotating_dir_memory_writer (disk true) names "m" "p" 1 true tt
    ≡ (tt, some (writer true 1048576 []))
unfolding new_rotating_dir_memory_writer max_size_of lt64
made = refl

appended_twice :
    append_entry
      (disk true)
      names
      (within_day "d" "t" "a")
      "s"
      "## entry"
      (append_all (disk true) names (hello ∷ []) (writer true 1048576 [], tt)).0
      (append_all (disk true) names (hello ∷ []) (writer true 1048576 [], tt)).1
    ≡ (writer true 1048576 (("m/p", of_size true 21) ∷ []), tt, ok tt)
unfolding append_all append_entry get_file path_of resolve_path close_stale lookup insert rotate
    archive_path safe_session_prefix lt64 add64
appended_twice = refl

appended_found :
    lookup
      (path_of
        (disk true)
        names
        (append_all (disk true) names (hello ∷ []) (writer true 1048576 [], tt)).0
        "d"
        "s")
      (append_entry
        (disk true)
        names
        (within_day "d" "t" "a")
        "s"
        "## entry"
        (append_all (disk true) names (hello ∷ []) (writer true 1048576 [], tt)).0
        (append_all (disk true) names (hello ∷ []) (writer true 1048576 [], tt)).1).0.files
    ≡ some (of_size true 21)
unfolding append_all append_entry get_file path_of resolve_path close_stale lookup insert rotate
    archive_path safe_session_prefix lt64 add64
appended_found = refl

append_all_bound_example : (of_size true 21).written ≤ (writer true 1048576 []).max_size_bytes
unfolding lt64
append_all_bound_example =
    append_all_bound (disk true) names disk_writes (λ w f. omega arith) "m" "p" 1 true tt tt
      (writer true 1048576 []) (hello ∷ []) hello (of_size true 21) made refl (omega arith)
      (omega arith, tt) (omega arith) (ap (λ q. q.2) appended_twice) appended_found

abbrev Gone : Unit {0} → String → Type 0
Gone w path = Unit

abbrev gone_laws : MissingLaws (disk false) Gone
gone_laws = record {
  close-Missing = λ w f path m. tt;
  rename-Missing = λ w path to m. tt;
  rename_fails = λ w path to m. refl;
}

abbrev full_writer : RotatingDirMemoryWriter (disk false) names
full_writer = writer false 10 (("m/p", of_size false 9) ∷ [])

abbrev two_entries : List (String × String × String)
two_entries = ("t1", "a1", "## one") ∷ ("t2", "a2", "## two") ∷ []

append_each_fail_example :
    ((append_each (disk false) names "d" "s" two_entries full_writer tt).0 ≡ full_writer)
    × All
        (λ r. r ≡ err rename_failed)
        (append_each (disk false) names "d" "s" two_entries full_writer tt).2
unfolding lt64 add64 lookup path_of resolve_path safe_session_prefix
append_each_fail_example =
    append_each_fail (disk false) names Gone gone_laws two_entries full_writer "d" "s"
      (of_size false 9) tt refl refl tt (refl, (refl, tt))

append-append_in_example :
    plain_result (disk true) names (
      append
        (disk true)
        names
        (within_day "d" "t" "a")
        "s"
        "user"
        "gpt"
        "hello"
        (writer true 0 [])
        tt)
    ≡ append_in
        (disk true)
        names
        "d"
        "t"
        "s"
        "user"
        "gpt"
        "hello"
        (plain (disk true) names (writer true 0 []))
        tt
unfolding lt64
append-append_in_example =
    append-append_in (disk true) names (within_day "d" "t" "a") "s" "user" "gpt" "hello"
      (writer true 0 []) tt refl
