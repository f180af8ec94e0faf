-- ===== src/Memory/Rotating/Small.antt =====
-- The counts that the writer keeps of its files stay below a bound, whatever it does before it writes.
use tokenomics.Base.{
  String, Bool, true, false, Option, none, some, [], ◌∷◌, All, Bool-cases, inl, inr, Result, ok,
  err, if◌then◌else◌, ◌≡◌, refl, ◌<◌, ◌^◌, arith, subst, ◌&&◌, not,
}
use tokenomics.Base.Eq.{string_eq, ◌==◌}
use tokenomics.Base.Dict.{Dict, lookup, insert, or_default}
use tokenomics.Base.Word.{Int64, lt64}
use tokenomics.Memory.Files.{Files, Names, safe_session_prefix}
use tokenomics.Memory.Archive.{
  WriteError, RotatingFile, compress_file, archive_path, reopened_at, archived, rotate,
}
use tokenomics.Memory.Rotating.{
  Stamps, RotatingDirMemoryWriter, path_of, close_stale, opened_at, within_dir, found_or_opened,
  get_file, Opened, rotated, is_full, checked_file, with_room,
}

-- No file holds 2 ^ 62 bytes or more.
abbrev pub AreSmall : Files → Type 0
AreSmall fs = (w : fs.World) (f : fs.Handle) → or_default 0 (fs.size w f) < 2 ^ 62

module _ (fs : Files) (nm : Names) where
  abbrev pub FilesAreSmall : Dict String (RotatingFile fs nm) → Type 0
  FilesAreSmall m = All (λ e. e.1.written < 2 ^ 62) m

  -- A writer with the limit, and with small counts.
  pub record IsSmall (max : Int64) (wr : RotatingDirMemoryWriter fs nm) : Type 0 where
    pub limit : wr.max_size_bytes ≡ max
    pub counts : FilesAreSmall wr.files

  abbrev IsSmallFile : Option (RotatingFile fs nm) → Type 0
  IsSmallFile none = Unit
  IsSmallFile (some rf) = rf.written < 2 ^ 62

  pub lookup-small :
      (path : String) (rf : RotatingFile fs nm) (m : Dict String (RotatingFile fs nm))
      → FilesAreSmall m
      → lookup path m ≡ some rf
      → rf.written < 2 ^ 62
  unfolding lookup
  lookup-small path rf [] h e = absurd (cc e)
  lookup-small path rf ((k, r) ∷ m) h e = elim (Bool-cases (k == path)) [
    | inl same ↦ let found : some r ≡ some rf = (rw same at e) in subst IsSmallFile found h.0
    | inr other ↦ lookup-small path rf m h.1 (rw other at e)
  ]

  pub insert-small :
      (path : String) (rf : RotatingFile fs nm) (m : Dict String (RotatingFile fs nm))
      → rf.written < 2 ^ 62
      → FilesAreSmall m
      → FilesAreSmall (insert path rf m)
  unfolding insert
  insert-small path rf [] s h = (s, tt)
  insert-small path rf ((k, r) ∷ m) s h = elim (Bool-cases (k == path)) [
    | inl e ↦ rw e (s, h.1)
    | inr e ↦ rw e (h.0, insert-small path rf m s h.1)
  ]

  close_stale-small :
      (hash path : String) (m : Dict String (RotatingFile fs nm)) (w : fs.World)
      → FilesAreSmall m
      → FilesAreSmall (close_stale fs nm hash path m w).1
  unfolding close_stale
  close_stale-small hash path [] w h = tt
  close_stale-small hash path ((k, r) ∷ m) w h =
      elim (Bool-cases (nm.contains k hash && not (k == path))) [
        | inl e ↦ rw e (close_stale-small hash path m (fs.close w r.file).0 h.1)
        | inr e ↦ rw e (h.0, close_stale-small hash path m w h.1)
      ]

  archived-written :
      (compress : Bool) (archive : String) (rf rf' : RotatingFile fs nm) (r : fs.World × Bool)
      (w' : fs.World)
      → archived fs nm compress archive rf r ≡ (w', ok rf')
      → rf'.written ≡ 0
  archived-written compress archive rf rf' (w, false) w' e = absurd (cc)
  archived-written compress archive rf rf' (w, true) w' e =
      go (fs.open_new (if compress then (compress_file fs nm archive w).0 else w) rf.path) e
    where
      go :
          (q : fs.World × Option fs.Handle)
          → reopened_at fs nm rf q ≡ (w', ok rf')
          → rf'.written ≡ 0
      go (v, none) h = absurd (cc)
      go (v, some f) h = ground arith

  pub rotate-written :
      (compress : Bool) (stamp : String) (rf rf' : RotatingFile fs nm) (w w' : fs.World)
      → rotate fs nm compress stamp rf w ≡ (w', ok rf')
      → rf'.written ≡ 0
  unfolding rotate
  rotate-written compress stamp rf rf' w w' e =
      archived-written compress (archive_path fs nm rf.path stamp) rf rf'
        (fs.rename (fs.close w rf.file).0 rf.path (archive_path fs nm rf.path stamp)) w' e

  module _ (small : AreSmall fs) (max : Int64) where
    opened_at-IsSmall :
        (path : String) (wr : RotatingDirMemoryWriter fs nm) (r : fs.World × Option fs.Handle)
        → IsSmall max wr
        → IsSmall max (opened_at fs nm path wr r).0
    opened_at-IsSmall path wr (w, none) v = v
    opened_at-IsSmall path wr (w, some f) v = record {
      limit = v.limit;
      counts = insert-small path _ wr.files (small w f) v.counts;
    }

    within_dir-IsSmall :
        (path : String) (wr : RotatingDirMemoryWriter fs nm) (r : fs.World × Bool)
        → IsSmall max wr
        → IsSmall max (within_dir fs nm path wr r).0
    within_dir-IsSmall path wr (w, false) v = v
    within_dir-IsSmall path wr (w, true) v = opened_at-IsSmall path wr (fs.open_append w path) v

    found_or_opened-IsSmall :
        (path sid : String) (wr : RotatingDirMemoryWriter fs nm) (w : fs.World)
        (o : Option (RotatingFile fs nm))
        → IsSmall max wr
        → IsSmall max (found_or_opened fs nm path sid wr w o).0
    found_or_opened-IsSmall path sid wr w (some rf) v = v
    found_or_opened-IsSmall path sid wr w none v =
        let hash = safe_session_prefix sid 16 in
        let q = close_stale fs nm hash path wr.files w in
        within_dir-IsSmall path (record wr { files = q.1 })
          (if nm.dir_of path == wr.dir then (q.0, true) else fs.mkdir_all q.0 (nm.dir_of path))
          (record { limit = v.limit; counts = close_stale-small hash path wr.files w v.counts })

    pub get_file-IsSmall :
        (date sid : String) (wr : RotatingDirMemoryWriter fs nm) (w : fs.World)
        → IsSmall max wr
        → IsSmall max (get_file fs nm date sid wr w).0
    unfolding get_file
    get_file-IsSmall date sid wr w v =
        let path = path_of fs nm wr date sid in
        found_or_opened-IsSmall path sid wr w (lookup path wr.files) v

    rotated-IsSmall :
        (st : Stamps) (sid path : String) (wr : RotatingDirMemoryWriter fs nm)
        (q : fs.World × Result WriteError (RotatingFile fs nm))
        → ((w' : fs.World) (rf' : RotatingFile fs nm) → q ≡ (w', ok rf') → rf'.written ≡ 0)
        → IsSmall max wr
        → IsSmall max (rotated fs nm st sid path wr q).0
    rotated-IsSmall st sid path wr (w, err e) zero_of v = v
    rotated-IsSmall st sid path wr (w, ok rf) zero_of v =
        let fresh : rf.written < 2 ^ 62 = omega (arith, zero_of w rf refl) in
        get_file-IsSmall st.reopened sid (record wr { files = insert path rf wr.files }) w
          (record { limit = v.limit; counts = insert-small path rf wr.files fresh v.counts })

    if-IsSmall :
        (t : Bool) (a b : Opened fs nm)
        → IsSmall max a.0
        → IsSmall max b.0
        → IsSmall max (if t then a else b).0
    if-IsSmall true a b v u = v
    if-IsSmall false a b v u = u

    checked_file-IsSmall :
        (st : Stamps) (sid entry path : String) (wr : RotatingDirMemoryWriter fs nm) (w : fs.World)
        (f : fs.Handle) (o : Option (RotatingFile fs nm))
        → IsSmall max wr
        → IsSmall max (checked_file fs nm st sid entry path wr w f o).0
    checked_file-IsSmall st sid entry path wr w f none v = v
    checked_file-IsSmall st sid entry path wr w f (some rf) v =
        if-IsSmall (is_full fs nm wr rf entry)
          (rotated fs nm st sid path wr (rotate fs nm wr.compress_old st.archive rf w))
          (wr, w, ok f)
          (rotated-IsSmall st sid path wr (rotate fs nm wr.compress_old st.archive rf w)
            (λ w' rf'. rotate-written wr.compress_old st.archive rf rf' w w') v)
          v

    pub with_room-IsSmall :
        (st : Stamps) (sid entry : String) (o : Opened fs nm)
        → IsSmall max o.0
        → IsSmall max (with_room fs nm st sid entry o).0
    with_room-IsSmall st sid entry (wr, w, err e) v = v
    with_room-IsSmall st sid entry (wr, w, ok f) v =
        let path = path_of fs nm wr st.checked sid in
        if-IsSmall (lt64 0 wr.max_size_bytes)
          (checked_file fs nm st sid entry path wr w f (lookup path wr.files)) (wr, w, ok f)
          (checked_file-IsSmall st sid entry path wr w f (lookup path wr.files) v) v
