-- ===== src/Imports.antt =====
-- backend/apps/games/forms.py and `import_license_keys_view` of backend/apps/games/admin.py: the import
-- of license keys from a CSV file. Parameters: the rows that `csv.reader` gives for the decoded file,
-- or nothing for a file that does not decode, `str.strip`, and the sequence of the keys.
pub mod Again
use ludora.Common.{
  ℕ, zero, suc, ◌+◌, ◌-◌, List, [], ◌∷◌, ◌++◌, Option, none, some, Bool, true, false, not, ◌&&◌,
  ◌==◌, any, filter, length, null, Text, codes, ◌=ᵗ◌, if◌then◌else◌,
}
use ludora.Store.{LicenseKey, KeyStatus, Error, Result, ok, err, validation_error}

-- LicenseKeyCSVImport
pub record LicenseKeyCsvImport : Type 0 where
  pub values : List Text
  pub empty_row_count : ℕ

-- `header.index(name)`
abbrev pub index_of : Text → List Text → Option ℕ
index_of name [] = none
index_of name (h ∷ hs) =
    let rest : Option ℕ = index_of name hs in
    if h =ᵗ name then some 0 else elim rest [ none ↦ none | some n ↦ some (suc n) ]

-- `row[index]`, or the empty text behind the end of the row.
abbrev pub cell : ℕ → List Text → Text
cell n [] = []
cell zero (c ∷ cs) = c
cell (suc n) (c ∷ cs) = cell n cs

abbrev pub put_value : Text → LicenseKeyCsvImport → LicenseKeyCsvImport
put_value [] r = record r { empty_row_count = suc r.empty_row_count }
put_value (c ∷ cs) r = record r { values = (c ∷ cs) ∷ r.values }

-- The loop over the rows.
abbrev pub read_rows : (Text → Text) → ℕ → List (List Text) → LicenseKeyCsvImport
read_rows strip n [] = record { values = []; empty_row_count = 0 }
read_rows strip n (row ∷ rows) = put_value (strip (cell n row)) (read_rows strip n rows)

abbrev pub read_body : (Text → Text) → List (List Text) → Option ℕ → Result LicenseKeyCsvImport
read_body strip rows none = err validation_error
read_body strip rows (some n) = ok (read_rows strip n rows)

-- Each `ValidationError` of the form is one error here.
unfoldable pub clean_csv_file :
    (Text → Text) → Option (List (List Text)) → Result LicenseKeyCsvImport
clean_csv_file strip none = err validation_error
clean_csv_file strip (some []) = err validation_error
clean_csv_file strip (some (header ∷ rows)) = read_body strip rows (index_of (codes "value") header)

-- `list(dict.fromkeys(values))`
abbrev pub unique_values : List Text → List Text
unique_values [] = []
unique_values (v ∷ vs) = v ∷ filter (λ w. not (w =ᵗ v)) (unique_values vs)

-- The product has a key with this value.
abbrev pub has_value : ℕ → List LicenseKey → Text → Bool
has_value product_id keys value = any (λ k. k.product_id == product_id && k.value =ᵗ value) keys

abbrev pub new_keys : ℕ → ℕ → List Text → List LicenseKey
new_keys product_id n [] = []
new_keys product_id n (v ∷ vs) =
    record {
      id = n;
      product_id = product_id;
      value = v;
      status = KeyStatus.available;
      sold_at = none;
    }
    ∷ new_keys product_id (suc n) vs

-- The counts that the message names, and the table afterwards.
pub record ImportResult : Type 0 where
  pub imported : ℕ
  pub skipped_duplicates : ℕ
  pub license_keys : List LicenseKey

unfoldable pub import_license_keys : ℕ → List Text → ℕ → List LicenseKey → ImportResult
import_license_keys product_id values next keys =
    let unique = unique_values values in
    let existing_values = filter (has_value product_id keys) unique in
    let new_values = filter (λ v. not (has_value product_id keys v)) unique in
    record {
      imported = length new_values;
      skipped_duplicates = (length values - length unique) + length existing_values;
      license_keys = keys ++ new_keys product_id next new_values;
    }
