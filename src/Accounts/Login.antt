-- ===== src/Accounts/Login.antt =====
-- A Telegram user's login: the account that it returns, and the same login again.
use ludora.Common.{
  any, null, ◌||◌, Option-cases, ℕ, Bool, true, false, ◌≡◌, refl, sym, ap, ◌∙◌, subst, List, [],
  ◌∷◌, ◌++◌, Option, none, some, Text, ◌=ᵗ◌, =ᵗ-refl, =ᵗ→≡, ◌==◌, ==-refl, find, find-update_where,
  holds, arith, Bool-cases, inl, inr,
}
use ludora.Store.{Result, ok, err, integrity_error}
use ludora.Accounts.{
  Others, saved, save_changed, has_row, Account, Accounts, Addresses, TelegramData, Metadata,
  metadata, with_metadata, has_metadata, find_telegram, create_user, synchronize, synchronize_found,
  after_create, log_in, found_or_created, new_account, bot_address, is_taken,
}

-- The account of the data: it is found by its Telegram id, and has the metadata.
pub record IsLoggedIn (given : TelegramData) (account : Account) (accounts : Accounts)
    : Type 0 where
  pub found : find_telegram given.telegram_id accounts ≡ some account
  pub current : has_metadata (metadata given) account ≡ true

pub has_metadata-with : (m : Metadata) (a : Account) → has_metadata m (with_metadata m a) ≡ true
has_metadata-with m a =
    rw
      (
        =ᵗ-refl m.telegram_username,
        =ᵗ-refl m.first_name,
        =ᵗ-refl m.last_name,
        =ᵗ-refl m.telegram_language_code,
      )
      refl

abbrev After : TelegramData → Result (Account × Accounts) → Type 0
After given (ok (account, accounts)) = IsLoggedIn given account accounts
After given (err e) = Unit

saved-same : (stale value : Text) → saved stale value stale ≡ value
saved-same stale value = elim (Bool-cases (stale =ᵗ value)) [
  | inl same ↦ rw same (=ᵗ→≡ stale value same)
  | inr differs ↦ rw differs refl
]

save_changed-same :
    (m : Metadata) (account : Account) → save_changed m account account ≡ with_metadata m account
save_changed-same m account =
    rw
      (
        saved-same account.telegram_username m.telegram_username,
        saved-same account.first_name m.first_name,
        saved-same account.last_name m.last_name,
        saved-same account.telegram_language_code m.telegram_language_code,
      )
      refl

-- An account that is found has a row.
pub find-has_row :
    (n : ℕ) (accounts : Accounts) (account : Account)
    → find_telegram n accounts ≡ some account
    → has_row account.id accounts ≡ true
find-has_row n accounts account = go accounts.rows
  where
    go :
        (xs : List Account)
        → find (λ a. holds a.telegram_id n) xs ≡ some account
        → any (λ a. a.id == account.id) xs ≡ true
    go [] h = absurd cc
    go (x ∷ xs) h = elim (Bool-cases (holds x.telegram_id n)) [
      | inl here ↦
          let chosen : find (λ a. holds a.telegram_id n) (x ∷ xs) ≡ some x = rw here refl in
          let both : some x ≡ some account = sym chosen ∙ h in
          let same : x ≡ account = cc in
          rw (ap (λ (a : Account). a.id) same, ==-refl account.id) refl
      | inr elsewhere ↦ ground (arith, h, elsewhere, go xs)
    ]

synchronize-After :
    (given : TelegramData) (account : Account) (accounts : Accounts)
    → find_telegram given.telegram_id accounts ≡ some account
    → After given (synchronize given account accounts)
unfolding synchronize
synchronize-After given account accounts found =
    elim (Bool-cases (has_metadata (metadata given) account)) [
      | inl current ↦ rw current (record { found = found; current = current })
      | inr stale ↦
          rw (stale, find-has_row given.telegram_id accounts account found)
            (record {
              found =
                  find-update_where (λ a. holds a.telegram_id given.telegram_id)
                    (λ a. a.id == account.id) (save_changed (metadata given) account) accounts.rows
                    (λ a. refl)
                  ∙ rw (found, ==-refl account.id)
                      (ap (λ (a : Account). some a) (save_changed-same (metadata given) account));
              current = has_metadata-with (metadata given) account;
            })
    ]

find-snoc :
    (p : Account → Bool) (xs : List Account) (a : Account)
    → find p xs ≡ none
    → p a ≡ true
    → find p (xs ++ a ∷ []) ≡ some a
find-snoc p [] a h k = rw k refl
find-snoc p (x ∷ xs) a h k = ground (arith, h, k, find-snoc p xs a)

free :
    (q : Account → Bool) (n : ℕ) (xs : List Account)
    → any (λ a. q a || holds a.telegram_id n) xs ≡ false
    → find (λ a. holds a.telegram_id n) xs ≡ none
free q n [] h = refl
free q n (x ∷ xs) h = ground (arith, h, free q n xs)

create_user-After :
    (addresses : Addresses) (email : Text) (given : TelegramData) (accounts : Accounts)
    → After given (create_user addresses email given.telegram_id (metadata given) accounts)
unfolding create_user
create_user-After addresses email given accounts = elim (Bool-cases (null email)) [
  | inl empty ↦ rw empty tt
  | inr filled ↦
      let address : Text = addresses.normalize email in
      let account : Account = new_account address given.telegram_id (metadata given) accounts in
      elim (Bool-cases (is_taken addresses address given.telegram_id accounts)) [
        | inl taken ↦ rw (filled, taken) tt
        | inr unused ↦
            rw (filled, unused)
              (record {
                found =
                    find-snoc (λ a. holds a.telegram_id given.telegram_id) accounts.rows account
                      (free (λ a. addresses.lower a.email =ᵗ addresses.lower address)
                        given.telegram_id accounts.rows unused)
                      (==-refl given.telegram_id);
                current = has_metadata-with (metadata given) account;
              })
      ]
]

synchronize_found-After :
    (given : TelegramData) (accounts : Accounts)
    → After given (synchronize_found given (find_telegram given.telegram_id accounts) accounts)
synchronize_found-After given accounts =
    elim (Option-cases (find_telegram given.telegram_id accounts)) [
      | inl missing ↦ rw missing tt
      | inr (account, found) ↦ rw found (synchronize-After given account accounts found)
    ]

-- No other request commits between the account's reading and its save.
abbrev pub IsQuiet : Others → Type 0
IsQuiet others = (t : Accounts) → others.at_save t ≡ t

module _ (others : Others) (quiet : IsQuiet others) (given : TelegramData) where
  after_create-After :
      (seen : Accounts) (created : Result (Account × Accounts))
      → After given created
      → After given (after_create others given seen created)
  after_create-After seen (ok (account, accounts)) h =
      rw (quiet accounts) (synchronize-After given account accounts h.found)
  after_create-After seen (err integrity_error) h =
      rw (quiet (others.at_lookup seen)) (synchronize_found-After given (others.at_lookup seen))
  after_create-After seen (err e) h = tt

  found_or_created-After :
      (addresses : Addresses) (accounts : Accounts) (found : Option Account)
      → find_telegram given.telegram_id accounts ≡ found
      → After given (found_or_created addresses others given found accounts)
  unfolding found_or_created
  found_or_created-After addresses accounts none missing =
      let seen = others.at_insert accounts in
      after_create-After seen
        (create_user addresses (bot_address given.telegram_id) given.telegram_id (metadata given)
          seen)
        (create_user-After addresses (bot_address given.telegram_id) given seen)
  found_or_created-After addresses accounts (some account) found =
      rw (quiet accounts) (synchronize-After given account accounts found)

-- A login that returns an account returns the one with the Telegram id, with the names and the
-- language that Telegram reports now, and the table has it so, whatever other requests did before the
-- insertion and before the lookup after it, where none commits between the reading of the account and
-- its save.
pub log_in-IsLoggedIn :
    (addresses : Addresses) (others : Others) (given : TelegramData) (accounts accounts' : Accounts)
    (account : Account)
    → IsQuiet others
    → log_in addresses others given accounts ≡ ok (account, accounts')
    → IsLoggedIn given account accounts'
unfolding log_in
log_in-IsLoggedIn addresses others given accounts accounts' account quiet returns =
    subst (After given) returns (
      found_or_created-After others quiet given addresses accounts
        (find_telegram given.telegram_id accounts) refl)

-- The same login again returns the same account and leaves the table as it is, where no other request
-- commits between the reading of the account and its save.
pub log_in_twice :
    (addresses : Addresses) (others others' : Others) (given : TelegramData)
    (accounts accounts' : Accounts) (account : Account)
    → IsQuiet others
    → IsQuiet others'
    → log_in addresses others given accounts ≡ ok (account, accounts')
    → log_in addresses others' given accounts' ≡ ok (account, accounts')
unfolding log_in synchronize
log_in_twice addresses others others' given accounts accounts' account quiet quiet' returns =
    let logged =
      log_in-IsLoggedIn addresses others given accounts accounts' account quiet returns in
    ap (λ (found : Option Account). found_or_created addresses others' given found accounts')
      logged.found
    ∙ rw (logged.current, quiet' accounts') refl
