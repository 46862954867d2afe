-- ===== src/BuildService/Artifacts.antt =====
-- services/build-service/internal/storage/s3.go: packages, built files and the metadata of builds in
-- the bucket. The JSON library is a parameter.
use mini_lambda.Common.{String, Bool, true, false, Option, none, some, List, [], ◌∷◌, if◌then◌else◌}
use mini_lambda.Common.Text.{cat}
use mini_lambda.Shared.Bucket.{Bucket}
use mini_lambda.BuildService.Jobs.{BuildMetadata}

-- What `filepath.Walk` meets: an error, a directory, or a file with its path relative to the root
-- and what reading it gives.
pub data Walked : Type 0 where
  walk_error directory : Walked
  file : String → Option String → Walked

pub record Json : Type 0 where
  pub encode : BuildMetadata → String
  pub decode : String → Option BuildMetadata

-- What `CheckBuildMetadata` finds.
pub data Existing : Type 0 where
  absent damaged : Existing
  existing : BuildMetadata → Existing

abbrev decoded : Option BuildMetadata → Existing
decoded none = damaged
decoded (some m) = existing m

unfoldable pub package_key : String → String
package_key function_id = cat "packages/" (cat function_id "/package.zip")

unfoldable pub artifact_key : String → String → String
artifact_key function_id rel_path = cat (cat "functions/" (cat function_id "/")) rel_path

unfoldable pub metadata_key : String → String
metadata_key hash = cat "metadata/" (cat hash ".json")

module _ (bucket : Bucket) where
  open bucket use {Objects, get, put, remove}

  -- `UploadPackage`; none is an error.
  unfoldable pub upload_package : String → String → Objects → Objects × Option String
  upload_package function_id data_of o =
      let (o', written) = put (package_key function_id) data_of o in
      (o', if written then some (package_key function_id) else none)

  -- `UploadDirectory`
  unfoldable pub upload_directory : String → List Walked → Objects → Objects × Bool
  upload_directory function_id [] o = (o, true)
  upload_directory function_id (walk_error ∷ later) o = (o, false)
  upload_directory function_id (directory ∷ later) o = upload_directory function_id later o
  upload_directory function_id (file rel_path none ∷ later) o = (o, false)
  upload_directory function_id (file rel_path (some contents) ∷ later) o =
      let (o', written) = put (artifact_key function_id rel_path) contents o in
      let rest = upload_directory function_id later o' in if written then rest else (o', false)

  -- `DownloadPackage`
  unfoldable pub download_package : String → Objects → Option String
  download_package key o = get key o

  -- `DeletePackage`
  unfoldable pub delete_package : String → Objects → Objects × Bool
  delete_package key o = remove key o

  abbrev of_body : Json → Option String → Existing
  of_body json none = absent
  of_body json (some body) = decoded (json.decode body)

  -- `CheckBuildMetadata`: an error of the read counts as an absent object.
  unfoldable pub check_build_metadata : Json → String → Objects → Existing
  check_build_metadata json hash o = of_body json (get (metadata_key hash) o)

  -- `SaveBuildMetadata`
  unfoldable pub save_build_metadata : Json → String → BuildMetadata → Objects → Objects × Bool
  save_build_metadata json hash m o = put (metadata_key hash) (json.encode m) o
