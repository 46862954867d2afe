-- ===== src/BuildService/ZipProcessor/Tests.antt =====
-- Runs of the extraction.
use text.Mathlib.Text.{starts_with}
use text.Mathlib.TextEquality.{starts_with_iff}
use text.Mathlib.TextPositions.{starts_with_of_prefix}
use text.Mathlib.TextLemmas.{append_assoc}
use mini_lambda.Common.{
  ◌≡◌, refl, sym, ap, ◌∙◌, String, true, false, [], ◌∷◌, if◌then◌else◌, Bool-cases, inl, inr,
}
use mini_lambda.Common.Text.{cat}
use mini_lambda.Common.Strings.{split, slash, last_part, trim_suffix}
use mini_lambda.BuildService.ZipProcessor.{climbs, Paths, Entry, Disk, max_files, extract_zip}
use mini_lambda.BuildService.ZipProcessor.Limits.{Contained, extract_zip-Contained}

-- A path that climbs is cut to the root.
abbrev plain_clean : String → String
plain_clean path = if climbs path then "/" else path

plain_clean-rooted : (path : String) → climbs (plain_clean path) ≡ false
unfolding split
plain_clean-rooted path = elim (Bool-cases (climbs path)) [ inl e ↦ rw e refl | inr e ↦ rw (e, e) ]

plain_join-rooted :
    (target name : String)
    → starts_with target "/" ≡ true
    → starts_with (cat target (cat "/" name)) "/" ≡ true
plain_join-rooted target name h =
    let (rest, e) = (starts_with_iff target "/").0 h in
    starts_with_of_prefix "/" (cat target (cat "/" name)) (
      cat rest (cat "/" name),
      sym (append_assoc "/" rest (cat "/" name)) ∙ ap (λ t. cat t (cat "/" name)) e,
    )

abbrev plain_paths : Paths
plain_paths = record {
  join = λ target name. cat target (cat "/" name);
  clean = plain_clean;
  dir = λ path. trim_suffix (trim_suffix path (last_part slash path)) "/";
  join-rooted = plain_join-rooted;
  clean-rooted = λ path rooted. plain_clean-rooted path;
}

abbrev main_py : Entry
main_py = record {
  name = "main.py";
  uncompressed_size = 10;
  is_dir = false;
  directory_made = true;
  opened = true;
  created = true;
  chunks = record { n = 10; put_out = 10; written = true; read = true } ∷ [];
  permissions_set = true;
}

abbrev bare_disk : Disk
bare_disk = record { requested = []; files = []; bytes = 7; total = 0 }

extract_zip-Contained_example :
    Contained plain_paths "/work/f" 7 max_files
      (extract_zip plain_paths "/work/f" (main_py ∷ []) bare_disk).0
extract_zip-Contained_example =
    extract_zip-Contained plain_paths "/work/f" (main_py ∷ []) bare_disk refl refl refl
