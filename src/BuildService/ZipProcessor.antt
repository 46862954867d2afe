-- ===== src/BuildService/ZipProcessor.antt =====
-- services/build-service/internal/builder/zip_processor.go. The archive reader, the file system and
-- package filepath are not modelled: an entry carries what they answer while it is extracted.
pub mod Limits
mod Tests
use text.Mathlib.Text.{◌==◌ as str_eq, starts_with}
use mini_lambda.Common.{
  ℕ, zero, suc, ◌+◌, ◌*◌, String, Bool, true, false, not, ◌&&◌, ◌||◌, ◌≡◌, List, [], ◌∷◌, ltb, ◌==◌,
  if◌then◌else◌,
}
use mini_lambda.Common.Text.{cat}
use mini_lambda.Common.Strings.{split, slash}

abbrev pub max_size : ℕ
max_size = 100 * 1024 * 1024

abbrev pub max_files : ℕ
max_files = 1000

-- An element `..` in a path.
abbrev pub any_parent : List String → Bool
any_parent [] = false
any_parent (part ∷ parts) = str_eq part ".." || any_parent parts

abbrev pub climbs : String → Bool
climbs path = any_parent (split slash path)

-- `filepath.Join`, `filepath.Clean` and `filepath.Dir`, with what their documentation says of rooted
-- paths: joining names to one gives one, and cleaning one leaves no `..` in it.
pub record Paths : Type 0 where
  pub join : String → String → String
  pub clean : String → String
  pub dir : String → String
  pub join-rooted :
      (target name : String)
      → starts_with target "/" ≡ true
      → starts_with (join target name) "/" ≡ true
  pub clean-rooted : (path : String) → starts_with path "/" ≡ true → climbs (clean path) ≡ false

-- A read of an entry: the bytes it gives, how many of them a write that fails still puts out, and
-- whether the write and the read succeed.
pub record Chunk : Type 0 where
  pub n : ℕ
  pub put_out : ℕ
  pub written : Bool
  pub read : Bool

-- An entry of the archive; after its chunks comes the end of the file.
pub record Entry : Type 0 where
  pub name : String
  pub uncompressed_size : ℕ
  pub is_dir : Bool
  pub directory_made : Bool
  pub opened : Bool
  pub created : Bool
  pub chunks : List Chunk
  pub permissions_set : Bool

-- What has been put on the disk: the paths that `os.MkdirAll` was called for, which makes them and
-- those of their parents that are missing, or some of them if it fails; the files, and the bytes in
-- them; and `totalSize`.
pub record Disk : Type 0 where
  pub requested : List String
  pub files : List String
  pub bytes : ℕ
  pub total : ℕ

abbrev pub shorter : ℕ → ℕ → ℕ
shorter a b = if ltb a b then a else b

-- One turn of the copy loop of `extractFile`; false is an error.
unfoldable pub copy_chunk : Chunk → Disk → Disk × Bool
copy_chunk c d =
    let counted = record d { total = d.total + c.n } in
    if c.n == 0
    then (d, c.read)
    else if ltb max_size (d.total + c.n)
    then (counted, false)
    else if c.written
    then (record counted { bytes = d.bytes + c.n }, c.read)
    else (record counted { bytes = d.bytes + shorter c.put_out c.n }, false)

-- The copy loop, up to the end of the file.
unfoldable pub copy_chunks : List Chunk → Disk → Disk × Bool
copy_chunks [] d = (d, true)
copy_chunks (c ∷ cs) d =
    let rest = copy_chunks cs in
    let (d', ok) = copy_chunk c d in if ok then rest d' else (d', false)

module _ (paths : Paths) where
  open paths use {join, clean, dir}

  -- The test against a path that leaves the target directory.
  abbrev pub is_inside : String → String → Bool
  is_inside target path = starts_with (cat (clean path) "/") (cat (clean target) "/")

  -- `extractFile` once the destination is open.
  unfoldable pub fill_file : Entry → Disk → Disk × Bool
  fill_file e d = let (d', copied) = copy_chunks e.chunks d in (d', copied && e.permissions_set)

  -- `extractFile`
  unfoldable pub extract_file : String → Entry → Disk → Disk × Bool
  extract_file target e d =
      let path = join target e.name in
      if not (is_inside target path)
      then (d, false)
      else if e.is_dir
      then (record d { requested = path ∷ d.requested }, e.directory_made)
      else let d' = record d { requested = dir path ∷ d.requested } in
        if e.directory_made && e.opened && e.created
        then fill_file e (record d' { files = path ∷ d.files })
        else (d', false)

  -- The loop of `extractZIP`, with the count of the files before it.
  unfoldable pub extract_from : String → ℕ → List Entry → Disk → Disk × Bool
  extract_from target file_count [] d = (d, true)
  extract_from target file_count (e ∷ es) d =
      let rest = extract_from target (suc file_count) es in
      if ltb max_files (suc file_count)
      then (d, false)
      else if ltb max_size e.uncompressed_size
      then (d, false)
      else let (d', ok) = extract_file target e d in if ok then rest d' else (d', false)

  -- `extractZIP` of an archive that can be read.
  unfoldable pub extract_zip : String → List Entry → Disk → Disk × Bool
  extract_zip target entries d = extract_from target 0 entries (record d { total = 0 })
