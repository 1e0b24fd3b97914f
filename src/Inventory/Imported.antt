-- ===== src/Inventory/Imported.antt =====
-- The import of license keys keeps the stock in order: backend/apps/games/admin.py.
use ludora.Common.{
  ℕ, suc, ◌≤◌, Bool, true, false, ◌≡◌, List, [], ◌∷◌, filter, not, Text, all, ltb, contains, Below,
  All, All-append, not-contains-Below, arith,
}
use ludora.Store.{Db, LicenseAssignment, is_available, is_reserved, assigned_keys}
use ludora.Inventory.{IsStock, HasStock}
use ludora.Imports.{unique_values, has_value, new_keys, import_license_keys}

assigned-Below :
    (n : ℕ) (xs : List LicenseAssignment)
    → all (λ a. ltb a.license_key_id n) xs ≡ true
    → Below n (assigned_keys xs)
assigned-Below n [] h = tt
assigned-Below n (a ∷ xs) h = ground (arith, h, assigned-Below n xs)

module _ (next : ℕ) (used : List ℕ) (below : Below next used) where
  new_keys-free :
      (p n : ℕ) (vs : List Text)
      → next ≤ n
      → All (λ k. is_available k.status ≡ true → contains k.id used ≡ false) (new_keys p n vs)
  new_keys-free p n [] h = tt
  new_keys-free p n (v ∷ vs) h =
      (λ _. not-contains-Below next n used below h, new_keys-free p (suc n) vs (omega (arith, h)))

  new_keys-held :
      (strict : Bool) (p n : ℕ) (vs : List Text)
      → All
          (λ k. strict ≡ true → is_reserved k.status ≡ true → contains k.id used ≡ true)
          (new_keys p n vs)
  new_keys-held strict p n [] = tt
  new_keys-held strict p n (v ∷ vs) = (λ _ reserved. cc, new_keys-held strict p (suc n) vs)

pub import_license_keys-IsStock :
    (strict : Bool) (p next : ℕ) (vs : List Text) (db : Db)
    → all (λ a. ltb a.license_key_id next) db.license_assignments ≡ true
    → HasStock strict db
    → IsStock strict
        (import_license_keys p vs next db.license_keys).license_keys
        db.license_assignments
        db.next_assignment
unfolding import_license_keys
import_license_keys-IsStock strict p next vs db drawn h =
    let used = assigned_keys db.license_assignments in
    let below = assigned-Below next db.license_assignments drawn in
    let values = filter (λ v. not (has_value p db.license_keys v)) (unique_values vs) in
    record {
      numbered = h.numbered;
      below = h.below;
      exclusive = h.exclusive;
      free =
          All-append _ db.license_keys _ h.free
            (new_keys-free next used below p next values (omega arith));
      held =
          All-append _ db.license_keys _ h.held
            (new_keys-held next used below strict p next values);
    }
