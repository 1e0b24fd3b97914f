-- ===== src/Inventory.antt =====
-- The stock of license keys: what every transaction keeps of the tables LicenseKey and
-- LicenseAssignment.
pub mod Writes
pub mod Reserve
pub mod Release
pub mod Terminate
pub mod Complete
pub mod Other
pub mod Attempts
pub mod Fresh
pub mod Imported
pub mod RoundTrip
use ludora.Common.{ℕ, Bool, true, false, List, map, ◌≡◌, contains, Distinct, Below, All}
use ludora.Store.{LicenseKey, LicenseAssignment, Db, is_available, is_reserved, assigned_keys}

abbrev pub assignment_ids : List LicenseAssignment → List ℕ
assignment_ids = map λ a. a.id

-- No key has two assignments, and an available key has none; if `strict`, then a reserved key has
-- one. The ids of assignments are distinct and below the sequence.
pub record IsStock (strict : Bool) (keys : List LicenseKey) (assignments : List LicenseAssignment)
    (next : ℕ) : Type 0 where
  pub numbered : Distinct (assignment_ids assignments)
  pub below : Below next (assignment_ids assignments)
  pub exclusive : Distinct (assigned_keys assignments)
  pub free :
      All
        (λ k. is_available k.status ≡ true → contains k.id (assigned_keys assignments) ≡ false)
        keys
  pub held :
      All
        (λ k.
          strict ≡ true
          → is_reserved k.status ≡ true
          → contains k.id (assigned_keys assignments) ≡ true)
        keys

abbrev pub HasStock : Bool → Db → Type 0
HasStock strict db = IsStock strict db.license_keys db.license_assignments db.next_assignment
