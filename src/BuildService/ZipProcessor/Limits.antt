-- ===== src/BuildService/ZipProcessor/Limits.antt =====
-- zip_processor.go: what an archive, however it is made, can put on the disk.
use text.Mathlib.Text.{starts_with}
use text.Mathlib.TextEquality.{starts_with_iff}
use mini_lambda.Common.{
  ℕ, suc, ◌+◌, ◌≤◌, ◌≡◌, refl, sym, ◌∙◌, ◌⊎◌, String, true, false, ◌&&◌, List, [], ◌∷◌, length, All,
  ltb, ◌==◌, arith, Bool-cases, inl, inr,
}
use mini_lambda.Common.Text.{cat}
use mini_lambda.BuildService.ZipProcessor.{
  Paths, Chunk, Entry, Disk, max_size, max_files, climbs, copy_chunk, copy_chunks, is_inside,
  fill_file, extract_file, extract_from, extract_zip,
}

-- The bytes on the disk since the start, where there were `before`, are counted and below the limit.
abbrev pub WithinSize : ℕ → Disk → Type 0
WithinSize before d = (d.bytes ≤ before + d.total) × (d.bytes ≤ before + max_size)

pub copy_chunk-WithinSize :
    (before : ℕ) (c : Chunk) (d : Disk) → WithinSize before d → WithinSize before (copy_chunk c d).0
unfolding copy_chunk
copy_chunk-WithinSize before c d h = elim (Bool-cases (c.n == 0)) [
  | inl e ↦ rw e h
  | inr e ↦ elim (Bool-cases (ltb max_size (d.total + c.n))) [
    | inl f ↦ rw (e, f) (omega (arith, h), omega (arith, h))
    | inr f ↦ elim (Bool-cases c.written) [
      | inl w ↦ rw (e, f, w) (omega (arith, h), ground (arith, f, h.0))
      | inr w ↦ rw (e, f, w) (ground (arith, h.0), ground (arith, f, h.0))
    ]
  ]
]

pub copy_chunks-WithinSize :
    (before : ℕ) (cs : List Chunk) (d : Disk)
    → WithinSize before d
    → WithinSize before (copy_chunks cs d).0
unfolding copy_chunks
copy_chunks-WithinSize before [] d h = h
copy_chunks-WithinSize before (c ∷ cs) d h =
    let next = copy_chunk-WithinSize before c d h in
    elim (Bool-cases (copy_chunk c d).1) [
      | inl e ↦ rw e (copy_chunks-WithinSize before cs (copy_chunk c d).0 next)
      | inr e ↦ rw e next
    ]

-- The copy loop touches no paths.
pub copy_chunk-paths :
    (c : Chunk) (d : Disk)
    → ((copy_chunk c d).0.files ≡ d.files) × ((copy_chunk c d).0.requested ≡ d.requested)
unfolding copy_chunk
copy_chunk-paths c d = elim (Bool-cases (c.n == 0)) [
  | inl e ↦ rw e (refl, refl)
  | inr e ↦ elim (Bool-cases (ltb max_size (d.total + c.n))) [
    | inl f ↦ rw (e, f) (refl, refl)
    | inr f ↦ elim (Bool-cases c.written) [
      | inl w ↦ rw (e, f, w) (refl, refl)
      | inr w ↦ rw (e, f, w) (refl, refl)
    ]
  ]
]

pub copy_chunks-paths :
    (cs : List Chunk) (d : Disk)
    → ((copy_chunks cs d).0.files ≡ d.files) × ((copy_chunks cs d).0.requested ≡ d.requested)
unfolding copy_chunks
copy_chunks-paths [] d = (refl, refl)
copy_chunks-paths (c ∷ cs) d =
    let one = copy_chunk-paths c d in
    let more = copy_chunks-paths cs (copy_chunk c d).0 in
    elim (Bool-cases (copy_chunk c d).1) [
      | inl e ↦ rw e (more.0 ∙ one.0, more.1 ∙ one.1)
      | inr e ↦ rw e one
    ]

pub suc_le : (n : ℕ) → ltb max_files (suc n) ≡ false → suc n ≤ max_files
suc_le n h = ground arith

module _ (paths : Paths) (target : String) (before : ℕ) where
  -- The cleaned path is that of the target directory or goes on from it with a separator, and there
  -- is no `..` in it.
  abbrev pub Inside : String → Type 0
  Inside path =
      (rest : String) × (cat (paths.clean path) "/" ≡ cat (cat (paths.clean target) "/") rest)
      × (climbs (paths.clean path) ≡ false)

  -- A directory that is asked for: inside, or the parent of a path inside.
  abbrev pub InsideOrParent : String → Type 0
  InsideOrParent path = Inside path ⊎ ((child : String) × Inside child × (path ≡ paths.dir child))

  pub joined-Inside :
      (name : String)
      → starts_with target "/" ≡ true
      → is_inside paths target (paths.join target name) ≡ true
      → Inside (paths.join target name)
  joined-Inside name rooted inside =
      let path = paths.join target name in
      let (rest, e) =
        (starts_with_iff (cat (paths.clean path) "/") (cat (paths.clean target) "/")).0 inside in
      (rest, sym e, paths.clean-rooted path (paths.join-rooted target name rooted))

  -- What holds of the disk after n entries, on a disk that had no paths at the start.
  abbrev pub Contained : ℕ → Disk → Type 0
  Contained n d =
      WithinSize before d
      × (All Inside d.files
          × (All InsideOrParent d.requested × ((length d.files ≤ n) × (length d.requested ≤ n))))

  pub fill_file-Contained :
      (n : ℕ) (e : Entry) (d : Disk) → Contained n d → Contained n (fill_file paths e d).0
  unfolding fill_file
  fill_file-Contained n e d h =
      let same = copy_chunks-paths e.chunks d in
      (
        copy_chunks-WithinSize before e.chunks d h.0,
        (rw same.0 h.1.0, (rw same.1 h.1.1.0, (rw same.0 h.1.1.1.0, rw same.1 h.1.1.1.1))),
      )

  pub Contained-more : (n m : ℕ) (d : Disk) → n ≤ m → Contained n d → Contained m d
  Contained-more n m d le h =
      (h.0, (h.1.0, (h.1.1.0, (omega (arith, h.1.1.1.0), omega (arith, h.1.1.1.1)))))

  pub extract_file-Contained :
      (n : ℕ) (e : Entry) (d : Disk)
      → starts_with target "/" ≡ true
      → Contained n d
      → Contained (suc n) (extract_file paths target e d).0
  unfolding extract_file fill_file
  extract_file-Contained n e d rooted h =
      let path = paths.join target e.name in
      elim (Bool-cases (is_inside paths target path)) [
        | inr i ↦ rw i (Contained-more n (suc n) d (omega arith) h)
        | inl i ↦
            let own = joined-Inside e.name rooted i in
            elim (Bool-cases e.is_dir) [
              | inl f ↦
                  rw (i, f)
                    (
                      h.0,
                      (
                        h.1.0,
                        ((inl own, h.1.1.0), (omega (arith, h.1.1.1.0), omega (arith, h.1.1.1.1))),
                      ),
                    )
              | inr f ↦
                  let d' : Disk = record d { requested = paths.dir path ∷ d.requested } in
                  let asked : All InsideOrParent d'.requested = (inr (path, own, refl), h.1.1.0) in
                  elim (Bool-cases (e.directory_made && e.opened && e.created)) [
                    | inl m ↦
                        rw (i, f, m)
                          (fill_file-Contained (suc n) e (record d' { files = path ∷ d.files })
                            (
                              h.0,
                              (
                                (own, h.1.0),
                                (asked, (omega (arith, h.1.1.1.0), omega (arith, h.1.1.1.1))),
                              ),
                            ))
                    | inr m ↦
                        rw (i, f, m)
                          (
                            h.0,
                            (h.1.0, (asked, (omega (arith, h.1.1.1.0), omega (arith, h.1.1.1.1)))),
                          )
                  ]
            ]
      ]

  pub extract_from-Contained :
      (n : ℕ) (es : List Entry) (d : Disk)
      → starts_with target "/" ≡ true
      → n ≤ max_files
      → Contained n d
      → Contained max_files (extract_from paths target n es d).0
  unfolding extract_from
  extract_from-Contained n [] d rooted le h = Contained-more n max_files d le h
  extract_from-Contained n (e ∷ es) d rooted le h =
      let stop = Contained-more n max_files d le h in
      elim (Bool-cases (ltb max_files (suc n))) [
        | inl f ↦ rw f stop
        | inr f ↦ elim (Bool-cases (ltb max_size e.uncompressed_size)) [
          | inl g ↦ rw (f, g) stop
          | inr g ↦
              let next = extract_file-Contained n e d rooted h in
              let fits = suc_le n f in
              elim (Bool-cases (extract_file paths target e d).1) [
                | inl ok ↦
                    rw (f, g, ok)
                      (extract_from-Contained (suc n) es (extract_file paths target e d).0 rooted
                        fits next)
                | inr ok ↦
                    rw (f, g, ok)
                      (Contained-more (suc n) max_files (extract_file paths target e d).0 fits next)
              ]
        ]
      ]

-- Whatever the archive holds and whichever step fails, an extraction into a rooted directory, onto
-- a disk without paths, puts at most 100 MB on it, in at most 1000 files, and calls `os.MkdirAll`
-- for at most 1000 paths. The cleaned path of each file goes on from that of the target directory
-- and has no `..` in it; so does that of each directory asked for, or it is the parent of such a
-- path.
pub extract_zip-Contained :
    (paths : Paths) (target : String) (entries : List Entry) (d : Disk)
    → starts_with target "/" ≡ true
    → d.files ≡ []
    → d.requested ≡ []
    → Contained paths target d.bytes max_files (extract_zip paths target entries d).0
unfolding extract_zip
extract_zip-Contained paths target entries d rooted h k =
    extract_from-Contained paths target d.bytes 0 entries (record d { total = 0 }) rooted
      (omega arith)
      ((omega arith, omega arith), (rw h tt, (rw k tt, (rw h (omega arith), rw k (omega arith)))))
