-- ===== src/Accounts/Races.antt =====
-- A login against the races of other requests: `create` of backend/apps/authentication/serializers.py.
use ludora.Common.{
  ℕ, Bool, true, false, not, ◌&&◌, ◌||◌, ◌≡◌, refl, List, [], ◌∷◌, Option, none, some, ◌=ᵗ◌, any,
  find, holds, arith, Bool-cases, inl, inr,
}
use ludora.Store.{Result, ok}
use ludora.Accounts.{
  Account, Accounts, Addresses, Others, TelegramData, metadata, has_metadata, find_telegram,
  is_taken, new_account, bot_address, create_user, has_row, synchronize, synchronize_found,
  after_create, found_or_created, log_in,
}
use ludora.Accounts.Login.{find-has_row, has_metadata-with}

-- Some account has the Telegram id.
abbrev pub has_telegram : ℕ → Accounts → Bool
has_telegram n accounts = any (λ a. holds a.telegram_id n) accounts.rows

-- Another account has the address that the login makes up.
abbrev pub is_squatted : Addresses → ℕ → Accounts → Bool
is_squatted addresses n accounts =
    any
      (λ a.
        addresses.lower a.email =ᵗ addresses.lower (addresses.normalize (bot_address n))
        && not (holds a.telegram_id n))
      accounts.rows

-- Other requests delete no account and take its Telegram id from none.
pub record DeletesNone (others : Accounts → Accounts) : Type 0 where
  pub keeps_telegram :
      (n : ℕ) (t : Accounts) → has_telegram n t ≡ true → has_telegram n (others t) ≡ true
  pub keeps_row : (id : ℕ) (t : Accounts) → has_row id t ≡ true → has_row id (others t) ≡ true

-- The call returns an account.
pub record Succeeds (r : Result (Account × Accounts)) : Type 0 where
  pub account : Account
  pub accounts : Accounts
  pub returns : r ≡ ok (account, accounts)

synchronize-Succeeds :
    (given : TelegramData) (account : Account) (accounts : Accounts)
    → has_row account.id accounts ≡ true
    → Succeeds (synchronize given account accounts)
unfolding synchronize
synchronize-Succeeds given account accounts there =
    elim (Bool-cases (has_metadata (metadata given) account)) [
      | inl current ↦ rw current (record { account = _; accounts = _; returns = refl })
      | inr stale ↦ rw (stale, there) (record { account = _; accounts = _; returns = refl })
    ]

unchanged-Succeeds :
    (given : TelegramData) (account : Account) (accounts : Accounts)
    → has_metadata (metadata given) account ≡ true
    → Succeeds (synchronize given account accounts)
unfolding synchronize
unchanged-Succeeds given account accounts current =
    rw current (record { account = _; accounts = _; returns = refl })

any-find :
    (p : Account → Bool) (xs : List Account)
    → any p xs ≡ true
    → (a : Account) × (find p xs ≡ some a)
any-find p [] h = absurd cc
any-find p (x ∷ xs) h = elim (Bool-cases (p x)) [
  | inl here ↦ (x, rw here refl)
  | inr elsewhere ↦
      let (a, found) = any-find p xs (ground (arith, h, elsewhere)) in (a, rw elsewhere found)
]

-- An address that is taken, but not by a squatter, is that of the Telegram user.
taken-has_telegram :
    (q r : Account → Bool) (xs : List Account)
    → any (λ a. q a || r a) xs ≡ true
    → any (λ a. q a && not (r a)) xs ≡ false
    → any r xs ≡ true
taken-has_telegram q r [] h k = h
taken-has_telegram q r (x ∷ xs) h k = ground (arith, h, k, taken-has_telegram q r xs)

module _ (addresses : Addresses) (others : Others) (given : TelegramData)
    (at_lookup : DeletesNone others.at_lookup) (at_save : DeletesNone others.at_save) where
  abbrev n : ℕ
  n = given.telegram_id

  found-Succeeds :
      (t : Accounts)
      → has_telegram n t ≡ true
      → Succeeds (synchronize_found given (find_telegram n t) (others.at_save t))
  found-Succeeds t there =
      let (account, found) = any-find (λ a. holds a.telegram_id n) t.rows there in
      rw found (
        synchronize-Succeeds given account (others.at_save t)
          (at_save.keeps_row account.id t (find-has_row n t account found)))

  create-Succeeds :
      (seen : Accounts)
      → is_squatted addresses n seen ≡ false
      → Succeeds (
          after_create others given seen
            (create_user addresses (bot_address n) n (metadata given) seen))
  unfolding create_user
  create-Succeeds seen free =
      elim (Bool-cases (is_taken addresses (addresses.normalize (bot_address n)) n seen)) [
        | inl taken ↦ rw taken (
            found-Succeeds (others.at_lookup seen) (
              at_lookup.keeps_telegram n seen (
                taken-has_telegram
                  (λ a.
                    addresses.lower a.email
                    =ᵗ addresses.lower (addresses.normalize (bot_address n)))
                  (λ a. holds a.telegram_id n) seen.rows taken free)))
        | inr unused ↦ rw unused (
            unchanged-Succeeds given
              (new_account (addresses.normalize (bot_address n)) n (metadata given) seen)
              (others.at_save _)
              (has_metadata-with (metadata given)
                (new_account (addresses.normalize (bot_address n)) n (metadata given) seen)))
      ]

  -- A login returns an account, whatever other requests commit meanwhile, an insertion of the same
  -- account included, where after that they delete no accounts and take no Telegram ids away, and no
  -- other account has the address that the login makes up for the user when it inserts.
  pub log_in-Succeeds :
      (accounts : Accounts)
      → is_squatted addresses n (others.at_insert accounts) ≡ false
      → Succeeds (log_in addresses others given accounts)
  unfolding log_in
  log_in-Succeeds accounts free = go (find_telegram n accounts) refl
    where
      go :
          (found : Option Account)
          → find_telegram n accounts ≡ found
          → Succeeds (found_or_created addresses others given found accounts)
      go none missing = create-Succeeds (others.at_insert accounts) free
      go (some account) found =
          synchronize-Succeeds given account (others.at_save accounts)
            (at_save.keeps_row account.id accounts (find-has_row n accounts account found))
