-- ===== src/LambdaService/CodeStore/Sharing.antt =====
-- s3.go below the service that keeps the functions: two functions with the same code share one
-- object.
use text.Mathlib.Text.{◌==◌ as str_eq}
use mini_lambda.Common.{◌≡◌, sym, ◌∙◌, String, true, false, some, arith}
use mini_lambda.Shared.Functions.{Function}
use mini_lambda.Shared.Functions.Interfaces.{found, FunctionRepository}
use mini_lambda.Shared.Functions.Service.{get_function, delete_function}
use mini_lambda.Shared.Functions.Service.Loss.{missing_code, delete_loses_shared_code}
use mini_lambda.Shared.Bucket.{Bucket}
use mini_lambda.LambdaService.CodeStore.{Hash, build_key, store, delete}
use mini_lambda.LambdaService.CodeStore.Contract.{Intact, store-end, s3_code_storage}

pub store-key :
    (bucket : Bucket) (blake3 : Hash) (prefix id code key : String) (o : bucket.Objects)
    → (store bucket blake3 prefix id code o).1 ≡ some key
    → some key ≡ some (build_key bucket blake3 prefix (blake3.hash code))
store-key bucket blake3 prefix id code key o =
    let own = some (build_key bucket blake3 prefix (blake3.hash code)) in
    store-end bucket blake3 prefix (λ p. p.1 ≡ some key → some key ≡ own) id code o
      (λ h. absurd (ground arith)) (λ e h. sym h) (λ w h. sym h) (λ w h. absurd (ground arith))

-- Two functions whose keys were given by `Store` for the same code, whenever that was: deleting one
-- of them, with both deletions successful, leaves the other in the repository without its code.
pub delete_loses_same_code :
    (bucket : Bucket) (blake3 : Hash) (prefix : String) (repo : FunctionRepository)
    (id other code : String) (f g : Function) (d : repo.Db) (o o₁ o₂ : bucket.Objects)
    (intact : Intact bucket blake3 prefix o)
    → (store bucket blake3 prefix id code o₁).1 ≡ some f.code
    → (store bucket blake3 prefix other code o₂).1 ≡ some g.code
    → repo.find_by_id id d ≡ found f
    → repo.rows other d ≡ some g
    → str_eq id other ≡ false
    → (repo.delete id d).1 ≡ true
    → (delete bucket blake3 prefix f.code o).1 ≡ true
    → let storage = s3_code_storage bucket blake3 prefix in
      let after = (delete_function repo storage id (d, (o, intact))).0 in
      get_function repo storage other after ≡ missing_code repo storage after.0
delete_loses_same_code bucket blake3 prefix repo id other code f g d o o₁ o₂ intact h k found_f row
      differs deleted code_deleted =
    let key_f = store-key bucket blake3 prefix id code f.code o₁ h in
    let key_g = store-key bucket blake3 prefix other code g.code o₂ k in
    delete_loses_shared_code repo (s3_code_storage bucket blake3 prefix) id other f g d (o, intact)
      found_f row differs (ground (arith, key_f ∙ sym key_g)) deleted code_deleted
