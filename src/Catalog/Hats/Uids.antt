-- ===== src/Catalog/Hats/Uids.antt =====
-- The record uids of a hat's unlock in src/queries/hats.rs: distinct, not blank, or refused.
use dd2_server.Prelude.{
  ◌≡◌, refl, Bool, false, Option, none, some, List, [], ◌∷◌, String, string_eq, ok, err, ap, inl,
  inr, arith, Bool-cases,
}
use dd2_server.Prelude.HashSet
use dd2_server.Prelude.HashSet.{HashSet, IsDistinct}
use dd2_server.Prelude.Text.{is_empty, trim}
use dd2_server.Catalog.{Json, CatalogValidationError, duplicate_record_uid}
use dd2_server.Catalog.Entries.Laws.{
  IsCatalog, bind-ok, bind-err, nothing-IsCatalog, more-IsCatalog,
}
use dd2_server.Catalog.Hats.{
  UidStep, skipped, repeated, new, uid_step, distinct_uids, uids_of, unlock_fields, finish_field,
  record_uids_field, parse_unlock,
}

abbrev pub IsNamed : String → Type 0
IsNamed s = is_empty s ≡ false

abbrev pub same_uid : String → String
same_uid uid = uid

-- Texts that are distinct and not blank.
abbrev pub IsUids : HashSet String → List String → Type 0
IsUids seen uids = IsCatalog same_uid IsNamed seen uids

data UidCase (seen : HashSet String) (s : UidStep) : Type 0 where
  is_skipped : s ≡ skipped → UidCase seen s
  is_repeated : (uid : String) → s ≡ repeated uid → UidCase seen s
  is_new :
      (uid : String) → s ≡ new uid → HashSet.member uid seen ≡ false → IsNamed uid → UidCase seen s

uid_case : (seen : HashSet String) (o : Option String) → UidCase seen (uid_step seen o)
unfolding uid_step
uid_case seen none = is_skipped refl
uid_case seen (some text) = elim (Bool-cases (is_empty (trim text))) [
  | inl blank ↦ is_skipped (rw blank refl)
  | inr full ↦ elim (Bool-cases (HashSet.member (trim text) seen)) [
    | inl old ↦ is_repeated (trim text) (rw (full, old) refl)
    | inr fresh ↦ is_new (trim text) (rw (full, fresh) refl) fresh full
  ]
]

module _ {V : Type 0} (json : Json V) where
  distinct_uids-IsUids :
      (values : List V) (seen : HashSet String) (uids : List String)
      → distinct_uids json values seen ≡ ok uids
      → IsUids seen uids
  unfolding distinct_uids
  distinct_uids-IsUids [] seen [] e = nothing-IsCatalog same_uid IsNamed seen
  distinct_uids-IsUids [] seen (uid ∷ uids) e = absurd (ground (arith, e))
  distinct_uids-IsUids (v ∷ values) seen uids e = elim (uid_case seen (json.as_str v)) [
    | is_skipped s ↦ distinct_uids-IsUids values seen uids (rw (s, distinct_uids) at e)
    | is_repeated uid s ↦ absurd (ground (arith, rw (s, distinct_uids) at e))
    | is_new uid s fresh full ↦
        let (rest, read, parts) =
          bind-ok (distinct_uids json values (uid ∷ seen)) (λ (rest : List String). uid ∷ rest)
            (rw (s, distinct_uids) at e) in
        rw⁻¹ parts (
          more-IsCatalog same_uid IsNamed seen uid uid rest (refl, fresh, full)
            (distinct_uids-IsUids values (uid ∷ seen) rest read))
  ]

  distinct_uids-err :
      (values : List V) (seen : HashSet String) (error : CatalogValidationError)
      → distinct_uids json values seen ≡ err error
      → (uid : String) × (error ≡ duplicate_record_uid uid)
  unfolding distinct_uids
  distinct_uids-err [] seen error e = absurd (ground (arith, e))
  distinct_uids-err (v ∷ values) seen error e = elim (uid_case seen (json.as_str v)) [
    | is_skipped s ↦ distinct_uids-err values seen error (rw (s, distinct_uids) at e)
    | is_repeated uid s ↦ (uid, ground (arith, rw (s, distinct_uids) at e))
    | is_new uid s fresh full ↦ distinct_uids-err values (uid ∷ seen) error (
        bind-err (distinct_uids json values (uid ∷ seen)) (λ (rest : List String). uid ∷ rest) error
          (rw (s, distinct_uids) at e))
  ]

  uids_of-IsUids :
      (o : Option (List V)) (uids : List String) → uids_of json o ≡ ok uids → IsUids [] uids
  uids_of-IsUids none [] e = nothing-IsCatalog same_uid IsNamed []
  uids_of-IsUids none (uid ∷ uids) e = absurd (ground (arith, e))
  uids_of-IsUids (some values) uids e = distinct_uids-IsUids values [] uids e

  uids_of-err :
      (o : Option (List V)) (error : CatalogValidationError)
      → uids_of json o ≡ err error
      → (uid : String) × (error ≡ duplicate_record_uid uid)
  uids_of-err none error e = absurd (ground (arith, e))
  uids_of-err (some values) error e = distinct_uids-err values [] error e

  unlock_fields-IsUids :
      (o : Option V) (finish : Bool) (uids : List String)
      → unlock_fields json o ≡ ok (finish, uids)
      → IsUids [] uids
  unlock_fields-IsUids none finish [] e = nothing-IsCatalog same_uid IsNamed []
  unlock_fields-IsUids none finish (uid ∷ uids) e = absurd (ground (arith, e))
  unlock_fields-IsUids (some unlock) finish uids e =
      let (found, read, parts) =
        bind-ok (uids_of json (record_uids_field json unlock))
          (λ (uids : List String). (finish_field json unlock, uids)) e in
      uids_of-IsUids (record_uids_field json unlock) uids (rw (ap (λ p. p.1) parts) at read)

  unlock_fields-err :
      (o : Option V) (error : CatalogValidationError)
      → unlock_fields json o ≡ err error
      → (uid : String) × (error ≡ duplicate_record_uid uid)
  unlock_fields-err none error e = absurd (ground (arith, e))
  unlock_fields-err (some unlock) error e = uids_of-err (record_uids_field json unlock) error (
      bind-err (uids_of json (record_uids_field json unlock))
        (λ (uids : List String). (finish_field json unlock, uids)) error e)

  pub parse_unlock-IsUids :
      (item : V) (finish : Bool) (uids : List String)
      → parse_unlock json item ≡ ok (finish, uids)
      → IsUids [] uids
  unfolding parse_unlock
  parse_unlock-IsUids item finish uids e =
      unlock_fields-IsUids (json.get "unlock" item) finish uids e

  pub parse_unlock-err :
      (item : V) (error : CatalogValidationError)
      → parse_unlock json item ≡ err error
      → (uid : String) × (error ≡ duplicate_record_uid uid)
  unfolding parse_unlock
  parse_unlock-err item error e = unlock_fields-err (json.get "unlock" item) error e
