-- ===== src/Imports/Again.antt =====
-- An import accounts for each value, and an import that is repeated imports nothing.
use mathlib.Core.List.{append-nil}
use ludora.Common.{
  ℕ, suc, ◌+◌, ◌≤◌, ◌≡◌, refl, inl, inr, List, [], ◌∷◌, ◌++◌, Bool, true, not, ◌||◌, arith, any,
  filter, length, All, All-map, Text, ◌=ᵗ◌, =ᵗ-refl, =ᵗ→≡, ==-refl, Bool-cases,
}
use ludora.Store.{LicenseKey}
use ludora.Imports.{unique_values, has_value, new_keys, import_license_keys}

module _ {A : Type 0} where
  filter-shorter : (p : A → Bool) (xs : List A) → length (filter p xs) ≤ length xs
  filter-shorter p [] = omega arith
  filter-shorter p (x ∷ xs) = ground (arith, filter-shorter p xs)

  filter-split :
      (p : A → Bool) (xs : List A)
      → length (filter (λ x. not (p x)) xs) + length (filter p xs) ≡ length xs
  filter-split p [] = omega arith
  filter-split p (x ∷ xs) = ground (arith, filter-split p xs)

unique-shorter : (values : List Text) → length (unique_values values) ≤ length values
unique-shorter [] = omega arith
unique-shorter (v ∷ vs) =
    omega (arith, filter-shorter (λ w. not (w =ᵗ v)) (unique_values vs), unique-shorter vs)

-- Each value of the file is imported or skipped: the two counts add up to the number of values.
import_license_keys-length :
    (product_id : ℕ) (values : List Text) (next : ℕ) (keys : List LicenseKey)
    → (let r = import_license_keys product_id values next keys in
        r.imported + r.skipped_duplicates ≡ length values)
unfolding import_license_keys
import_license_keys-length product_id values next keys =
    omega (
      arith,
      filter-split (has_value product_id keys) (unique_values values),
      unique-shorter values,
    )

has_value-append :
    (p : ℕ) (keys more : List LicenseKey) (v : Text)
    → has_value p (keys ++ more) v ≡ (has_value p keys v || has_value p more v)
has_value-append p [] more v = refl
has_value-append p (k ∷ keys) more v = ground (arith, has_value-append p keys more v)

module _ (p : ℕ) (keys : List LicenseKey) where
  abbrev is_new : Text → Bool
  is_new v = not (has_value p keys v)

  -- A new value has a row among the new rows.
  new-has_value :
      (n : ℕ) (vs : List Text) (v : Text)
      → any (λ w. w =ᵗ v) vs ≡ true
      → has_value p (new_keys p n vs) v ≡ true
  new-has_value n [] v h = cc
  new-has_value n (w ∷ vs) v h = ground (arith, ==-refl p, new-has_value (suc n) vs v)

  any-filter :
      (vs : List Text) (v : Text)
      → is_new v ≡ true
      → any (λ w. w =ᵗ v) vs ≡ true
      → any (λ w. w =ᵗ v) (filter is_new vs) ≡ true
  any-filter [] v fresh h = cc
  any-filter (w ∷ vs) v fresh h = elim (Bool-cases (w =ᵗ v)) [
    | inl same ↦
        let equal : w ≡ v = =ᵗ→≡ w v same in
        let new : is_new w ≡ true = rw equal fresh in rw (new, same) refl
    | inr other ↦ ground (arith, other, h, any-filter vs v fresh)
  ]

  any-cons :
      (vs : List Text) (w v : Text)
      → any (λ x. x =ᵗ v) vs ≡ true
      → any (λ x. x =ᵗ v) (w ∷ vs) ≡ true
  any-cons vs w v h = ground (arith, h)

  members :
      (vs us : List Text)
      → ((v : Text) → any (λ x. x =ᵗ v) vs ≡ true → any (λ x. x =ᵗ v) us ≡ true)
      → All (λ v. any (λ x. x =ᵗ v) us ≡ true) vs
  members [] us sub = tt
  members (v ∷ vs) us sub =
      (sub v (ground (arith, =ᵗ-refl v)), members vs us (λ w h. sub w (any-cons vs v w h)))

  -- After the import, each value of the file is in the table.
  now_there :
      (n : ℕ) (us : List Text) (v : Text)
      → any (λ x. x =ᵗ v) us ≡ true
      → has_value p (keys ++ new_keys p n (filter is_new us)) v ≡ true
  now_there n us v h = elim (Bool-cases (has_value p keys v)) [
    | inl old ↦ rw (has_value-append p keys, old) refl
    | inr fresh ↦
        rw (has_value-append p keys, fresh)
          (new-has_value n (filter is_new us) v (any-filter us v (rw fresh refl) h))
  ]

none_new :
    (p : ℕ) (keys : List LicenseKey) (vs : List Text)
    → All (λ v. has_value p keys v ≡ true) vs
    → filter (λ v. not (has_value p keys v)) vs ≡ []
none_new p keys [] h = refl
none_new p keys (v ∷ vs) h = rw h.0 (none_new p keys vs h.1)

-- A file that is imported a second time imports nothing, whatever the sequence is by then: the count
-- is 0 and the table stays as the first import left it.
pub import_license_keys_twice :
    (product_id : ℕ) (values : List Text) (next later : ℕ) (keys : List LicenseKey)
    → (let first = import_license_keys product_id values next keys in
        let second = import_license_keys product_id values later first.license_keys in
        (second.imported ≡ 0) × (second.license_keys ≡ first.license_keys))
unfolding import_license_keys
import_license_keys_twice p values next later keys =
    let us = unique_values values in
    let after = keys ++ new_keys p next (filter (is_new p keys) us) in
    let there : All (λ v. has_value p after v ≡ true) us =
      All-map us (λ v h. now_there p keys next us v h) (members p keys us us (λ v h. h)) in
    rw (none_new p after us there) (refl, append-nil after)
