-- ===== src/LambdaService/CodeStore/Contract.antt =====
-- s3.go against the interface of a code store in shared/domain/repository.go.
use text.Mathlib.Text.{◌==◌ as str_eq}
use Prim.Native.String.{slice}
use text.Mathlib.TextLemmas.{cons-append, nil-append}
use mini_lambda.Common.{
  ◌≡◌, refl, sym, ap, ◌∙◌, String, true, false, ◌&&◌, Option, none, some, inl, inr, if◌then◌else◌,
  arith, Bool-cases,
}
use mini_lambda.Common.Text.{cat, str_eq_refl, str_eq_of_ne, eq_of_str_eq}
use mini_lambda.Common.Strings.{contains, last_part, slash}
use mini_lambda.Common.Strings.Laws.{contains-cat, last_part_self, last_part-cat}
use mini_lambda.Shared.Functions.Interfaces.{CodeStorage, stored_at}
use mini_lambda.Shared.Bucket.{Bucket}
use mini_lambda.LambdaService.CodeStore.{Hash, build_key, store, verified, retrieve, delete}

pub not_empty : (s : String) → contains slash s ≡ true → str_eq s "" ≡ false
unfolding contains
not_empty s h = str_eq_of_ne s "" (λ e. absurd (ground (arith, sym h ∙ ap (contains slash) e)))

pub slash_first : (h : String) → cat "/" h ≡ String.◌∷◌ "/" h
slash_first h = cons-append "/" "" h ∙ ap (λ t. String.◌∷◌ "/" t) (nil-append h)

pub slash_has : (h : String) → contains slash (cat "/" h) ≡ true
unfolding contains
slash_has h = ap (contains slash) (slash_first h)

pub has_slash : (s h : String) → contains slash (cat s (cat "/" h)) ≡ true
unfolding contains
has_slash s h = rw (contains-cat slash s (cat "/" h), slash_has h) (ground arith)

pub last_part-slash :
    (s h : String) → contains slash h ≡ false → last_part slash (cat s (cat "/" h)) ≡ h
unfolding contains
last_part-slash s h k =
    last_part-cat slash s (cat "/" h) (slash_has h)
    ∙ ap (last_part slash) (slash_first h)
    ∙ last_part_self slash "/" h refl k

module _ (bucket : Bucket) (blake3 : Hash) (prefix : String) where
  open bucket use {
    Objects, object, answers, get, head, put, remove, get-object, head-object, object-put,
    object-remove,
  }
  open blake3 use {hash, hash-free, hash-injective}

  abbrev key_of : String → String
  key_of code = build_key bucket blake3 prefix (hash code)

  pub last_part-build_key : (code : String) → last_part slash (key_of code) ≡ hash code
  unfolding build_key
  last_part-build_key code = elim (Bool-cases (str_eq prefix "")) [
    | inl e ↦ rw e (last_part-slash (slice (hash code) 0 2) (hash code) (hash-free code))
    | inr e ↦ rw e (
        last_part-cat slash prefix (cat "/" (cat (slice (hash code) 0 2) (cat "/" (hash code))))
          (slash_has (cat (slice (hash code) 0 2) (cat "/" (hash code))))
        ∙ last_part-cat slash "/" (cat (slice (hash code) 0 2) (cat "/" (hash code)))
            (has_slash (slice (hash code) 0 2) (hash code))
        ∙ last_part-slash (slice (hash code) 0 2) (hash code) (hash-free code))
  ]

  pub build_key-not_empty : (code : String) → str_eq (key_of code) "" ≡ false
  unfolding build_key
  build_key-not_empty code = elim (Bool-cases (str_eq prefix "")) [
    | inl e ↦ rw e (not_empty _ (has_slash (slice (hash code) 0 2) (hash code)))
    | inr e ↦
        rw e (not_empty _ (has_slash prefix (cat (slice (hash code) 0 2) (cat "/" (hash code)))))
  ]

  pub verified-own :
      (code : String) → verified bucket blake3 prefix (key_of code) (some code) ≡ some code
  unfolding verified
  verified-own code = rw (last_part-build_key code, str_eq_refl (hash code)) (ground arith)

  -- No object under the key of a code holds anything else.
  abbrev pub Intact : Objects → Type 0
  Intact o = (code body : String) → object (key_of code) o ≡ some body → body ≡ code

  -- What a reader of the store gets under a key.
  unfoldable pub peek : String → Objects → Option String
  peek key o = if str_eq key "" then none else verified bucket blake3 prefix key (object key o)

  pub retrieve-answers :
      (key : String) (o : Objects)
      → retrieve bucket blake3 prefix key o ≡ (if answers o then peek key o else none)
  unfolding retrieve peek verified
  retrieve-answers key o = rw (get-object key o) (ground arith)

  pub peek-own :
      (code : String) (o : Objects)
      → object (key_of code) o ≡ some code
      → peek (key_of code) o ≡ some code
  unfolding peek
  peek-own code o h = rw (build_key-not_empty code, h) (verified-own code)

  -- The four ends of `store`.
  pub store-end {κ} :
      (P : Objects × Option String → Type κ) (id code : String) (o : Objects)
      → P (o, none)
      → (head (key_of code) o ≡ true → P (o, some (key_of code)))
      → ((put (key_of code) code o).1 ≡ true → P ((put (key_of code) code o).0, some (key_of code)))
      → ((put (key_of code) code o).1 ≡ false → P ((put (key_of code) code o).0, none))
      → P (store bucket blake3 prefix id code o)
  unfolding store
  store-end P id code o refused there written failed = elim (Bool-cases (str_eq code "")) [
    | inl e ↦ rw e refused
    | inr e ↦ elim (Bool-cases (head (key_of code) o)) [
      | inl h ↦ rw (e, h) (there h)
      | inr h ↦ elim (Bool-cases ((put (key_of code) code o).1)) [
        | inl w ↦ rw (e, h, w) (written w)
        | inr w ↦ rw (e, h, w) (failed w)
      ]
    ]
  ]

  pub key_of-injective : (a b : String) → key_of a ≡ key_of b → a ≡ b
  key_of-injective a b e =
      hash-injective a b
        (sym (last_part-build_key a) ∙ ap (last_part slash) e ∙ last_part-build_key b)

  put-Intact : (code : String) (o : Objects) → Intact o → Intact (put (key_of code) code o).0
  put-Intact code o h other body e =
      let found = sym (object-put (key_of other) (key_of code) code o) ∙ e in
      elim (Bool-cases ((put (key_of code) code o).1)) [
        | inl w ↦ elim (Bool-cases (str_eq (key_of code) (key_of other))) [
          | inl same ↦
              let it = key_of-injective code other (eq_of_str_eq _ _ same) in ground (arith, found)
          | inr differs ↦ h other body (ground (arith, found))
        ]
        | inr w ↦ h other body (ground (arith, found))
      ]

  pub store-Intact :
      (id code : String) (o : Objects) → Intact o → Intact (store bucket blake3 prefix id code o).0
  store-Intact id code o h =
      store-end (λ p. Intact p.0) id code o h (λ e. h) (λ w. put-Intact code o h)
        (λ w. put-Intact code o h)

  peek-found :
      (asked code : String) (o : Objects)
      → str_eq (key_of code) asked ≡ true
      → object (key_of code) o ≡ some code
      → peek asked o ≡ some code
  peek-found asked code o same h =
      ap (λ key. peek key o) (sym (eq_of_str_eq (key_of code) asked same)) ∙ peek-own code o h

  peek-put_fails :
      (asked key code : String) (o : Objects)
      → (put key code o).1 ≡ false
      → peek asked (put key code o).0 ≡ peek asked o
  unfolding peek
  peek-put_fails asked key code o w = rw (object-put asked key code o, w) refl

  peek-put :
      (asked code : String) (o : Objects)
      → (put (key_of code) code o).1 ≡ true
      → peek asked (put (key_of code) code o).0
        ≡ (if str_eq (key_of code) asked then some code else peek asked o)
  unfolding peek
  peek-put asked code o w = elim (Bool-cases (str_eq (key_of code) asked)) [
    | inl same ↦ rw same (
        peek-found asked code (put (key_of code) code o).0 same
          (rw (object-put (key_of code) (key_of code) code o, w, str_eq_refl (key_of code)) refl))
    | inr differs ↦ rw (differs, object-put asked (key_of code) code o, w, differs) refl
  ]

  peek-there :
      (asked code : String) (o : Objects)
      → Intact o
      → head (key_of code) o ≡ true
      → peek asked o ≡ (if str_eq (key_of code) asked then some code else peek asked o)
  peek-there asked code o h e =
      let (body, found) = head-object (key_of code) o e in
      let found' = found ∙ ap (λ c. some c) (h code body found) in
      elim (Bool-cases (str_eq (key_of code) asked)) [
        | inl same ↦ rw same (peek-found asked code o same found')
        | inr differs ↦ rw differs refl
      ]

  -- What `Store` promises the service that keeps the functions.
  pub store-peek :
      (asked id code : String) (o : Objects)
      → Intact o
      → peek asked (store bucket blake3 prefix id code o).0
        ≡ stored_at (store bucket blake3 prefix id code o).1 asked code (peek asked o)
  store-peek asked id code o h =
      store-end (λ p. peek asked p.0 ≡ stored_at p.1 asked code (peek asked o)) id code o refl
        (peek-there asked code o h) (λ w. peek-put asked code o w)
        (peek-put_fails asked (key_of code) code o)

  object-delete :
      (asked key : String) (o : Objects)
      → object asked (delete bucket blake3 prefix key o).0 ≡ (
          if (delete bucket blake3 prefix key o).1 && str_eq key asked
          then none
          else object asked o)
  unfolding delete
  object-delete asked key o = elim (Bool-cases (str_eq key "")) [
    | inl e ↦ rw e refl
    | inr e ↦ rw e (object-remove asked key o)
  ]

  pub delete-Intact :
      (key : String) (o : Objects) → Intact o → Intact (delete bucket blake3 prefix key o).0
  delete-Intact key o h code body found =
      h code body (ground (arith, sym (object-delete (key_of code) key o) ∙ found))

  pub delete-peek :
      (asked key : String) (o : Objects)
      → peek asked (delete bucket blake3 prefix key o).0
        ≡ (if (delete bucket blake3 prefix key o).1 && str_eq key asked then none else peek asked o)
  unfolding peek verified
  delete-peek asked key o = rw (object-delete asked key o) (ground arith)

  -- The code storage of the service that keeps the functions, in a bucket that is intact.
  abbrev pub s3_code_storage : CodeStorage
  s3_code_storage = record {
    Blobs = (o : Objects) × Intact o;
    peek = λ key b. peek key b.0;
    answers = λ b. answers b.0;
    store = λ id code b.
        let (o', key) = store bucket blake3 prefix id code b.0 in
        ((o', store-Intact id code b.0 b.1), key);
    retrieve = λ key b. retrieve bucket blake3 prefix key b.0;
    delete = λ key b.
        let (o', deleted) = delete bucket blake3 prefix key b.0 in
        ((o', delete-Intact key b.0 b.1), deleted);
    retrieve-peek = λ key b. retrieve-answers key b.0;
    peek-store = λ asked id code b. store-peek asked id code b.0 b.1;
    peek-delete = λ asked key b. delete-peek asked key b.0;
  }

  -- On a bucket where every object under the key of a code holds that code, `Store`, `Retrieve`
  -- and `Delete` do what the service that keeps the functions is promised: stored code is what is
  -- read back under the key, whether it was written or found there; a deletion takes that key
  -- away and no other; a read gives the code or, without an answer, an error. And the bucket stays
  -- as it was supposed to be.
  pub s3_implements_code_storage :
      (asked id code key : String) (o : Objects)
      → Intact o
      → let (stored, answer) = store bucket blake3 prefix id code o in
        let (after, deleted) = delete bucket blake3 prefix key o in
        (peek asked stored ≡ stored_at answer asked code (peek asked o))
        × (peek asked after ≡ (if deleted && str_eq key asked then none else peek asked o))
        × (retrieve bucket blake3 prefix asked o ≡ (if answers o then peek asked o else none))
        × Intact stored
        × Intact after
  s3_implements_code_storage asked id code key o h = (
    store-peek asked id code o h,
    delete-peek asked key o,
    retrieve-answers asked o,
    store-Intact id code o h,
    delete-Intact key o h,
  )
