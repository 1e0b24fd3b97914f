-- ===== src/Accounts.antt =====
-- backend/apps/authentication/serializers.py, `TelegramAuthenticationSerializer`, with the model and the manager of
-- backend/apps/users/models.py, and the check of the secret in backend/apps/authentication/views.py. The
-- normal form of an address, the database's `Lower`, and what other requests commit between the steps
-- of a login are parameters; passwords are left out.
pub mod Login
pub mod Squatting
pub mod Races
use ludora.Common.{
  ℕ, ◌+◌, suc, Bool, true, false, not, ◌&&◌, ◌||◌, List, [], ◌∷◌, ◌++◌, Option, none, some, Text,
  codes, ◌=ᵗ◌, ◌==◌, null, find, any, holds, contains, update_where, print_decimal, if◌then◌else◌,
}
use ludora.Store.{
  Error, Result, ok, err, integrity_error, does_not_exist, value_error, database_error,
}

-- users.User, with the columns of the login.
pub record Account : Type 0 where
  pub id : ℕ
  pub email : Text
  pub telegram_id : Option ℕ
  pub telegram_username : Text
  pub first_name : Text
  pub last_name : Text
  pub telegram_language_code : Text

-- The table of the users with its sequence.
pub record Accounts : Type 0 where
  pub rows : List Account
  pub next_id : ℕ

-- `normalize_email`, and `Lower` of the unique index.
pub record Addresses : Type 0 where
  pub normalize : Text → Text
  pub lower : Text → Text

-- The validated data of the login of a Telegram user.
pub record TelegramData : Type 0 where
  pub telegram_id : ℕ
  pub username : Option Text
  pub first_name : Option Text
  pub last_name : Option Text
  pub language_code : Option Text

pub record Metadata : Type 0 where
  pub telegram_username : Text
  pub first_name : Text
  pub last_name : Text
  pub telegram_language_code : Text

-- `value or ""`
abbrev pub or_blank : Option Text → Text
or_blank none = []
or_blank (some t) = t

-- `_metadata`
abbrev pub metadata : TelegramData → Metadata
metadata given = record {
  telegram_username = or_blank given.username;
  first_name = or_blank given.first_name;
  last_name = or_blank given.last_name;
  telegram_language_code = or_blank given.language_code;
}

-- The account with the metadata: `setattr` of each field that differs.
abbrev pub with_metadata : Metadata → Account → Account
with_metadata m account = record account {
  telegram_username = m.telegram_username;
  first_name = m.first_name;
  last_name = m.last_name;
  telegram_language_code = m.telegram_language_code;
}

abbrev pub has_metadata : Metadata → Account → Bool
has_metadata m account =
    account.telegram_username =ᵗ m.telegram_username
    && account.first_name =ᵗ m.first_name
    && account.last_name =ᵗ m.last_name
    && account.telegram_language_code =ᵗ m.telegram_language_code

-- `filter(telegram_id=telegram_id).first()`
abbrev pub find_telegram : ℕ → Accounts → Option Account
find_telegram n accounts = find (λ a. holds a.telegram_id n) accounts.rows

-- The unique indexes on the address, whatever its letters' case, and on the Telegram id.
abbrev pub is_taken : Addresses → Text → ℕ → Accounts → Bool
is_taken addresses email n accounts =
    any (λ a. addresses.lower a.email =ᵗ addresses.lower email || holds a.telegram_id n)
      accounts.rows

-- `self.model(email=email, **extra_fields)`
abbrev pub new_account : Text → ℕ → Metadata → Accounts → Account
new_account address telegram_id m accounts = record {
  id = accounts.next_id;
  email = address;
  telegram_id = some telegram_id;
  telegram_username = m.telegram_username;
  first_name = m.first_name;
  last_name = m.last_name;
  telegram_language_code = m.telegram_language_code;
}

-- `create_user`, for a Telegram user.
unfoldable pub create_user :
    Addresses → Text → ℕ → Metadata → Accounts → Result (Account × Accounts)
create_user addresses email telegram_id m accounts =
    let address : Text = addresses.normalize email in
    let account : Account = new_account address telegram_id m accounts in
    if null email
    then err value_error
    else if is_taken addresses address telegram_id accounts
    then err integrity_error
    else ok
        (account, record { rows = accounts.rows ++ account ∷ []; next_id = suc accounts.next_id })

abbrev pub bot_address : ℕ → Text
bot_address n = codes "telegram-" ++ print_decimal n ++ codes "@bot.ludora.invalid"

-- What other requests make of the table before the insertion, before the lookup that follows an
-- `IntegrityError`, and before the fields are saved.
pub record Others : Type 0 where
  pub at_insert : Accounts → Accounts
  pub at_lookup : Accounts → Accounts
  pub at_save : Accounts → Accounts

-- A field as the save leaves it in the row: the new value if the instance had another.
abbrev pub saved : Text → Text → Text → Text
saved stale value current = if stale =ᵗ value then current else value

-- The row after `save(update_fields=changed)` of an instance that was read before.
abbrev pub save_changed : Metadata → Account → Account → Account
save_changed m stale row = record row {
  telegram_username = saved stale.telegram_username m.telegram_username row.telegram_username;
  first_name = saved stale.first_name m.first_name row.first_name;
  last_name = saved stale.last_name m.last_name row.last_name;
  telegram_language_code =
      saved stale.telegram_language_code m.telegram_language_code row.telegram_language_code;
}

-- The row of an account is there.
abbrev pub has_row : ℕ → Accounts → Bool
has_row id accounts = any (λ a. a.id == id) accounts.rows

-- The fields that differ from those of the instance are saved; a save that finds no row raises.
unfoldable pub synchronize : TelegramData → Account → Accounts → Result (Account × Accounts)
synchronize given account accounts =
    if has_metadata (metadata given) account
    then ok (account, accounts)
    else if has_row account.id accounts
    then ok (
      with_metadata (metadata given) account,
      record accounts {
        rows =
            update_where (λ a. a.id == account.id) (save_changed (metadata given) account)
              accounts.rows;
      },
    )
    else err database_error

abbrev pub synchronize_found :
    TelegramData → Option Account → Accounts → Result (Account × Accounts)
synchronize_found given none accounts = err does_not_exist
synchronize_found given (some account) accounts = synchronize given account accounts

-- From the table that the insertion saw, and its result.
abbrev pub after_create :
    Others → TelegramData → Accounts → Result (Account × Accounts) → Result (Account × Accounts)
after_create others given seen (ok (account, accounts)) =
    synchronize given account (others.at_save accounts)
after_create others given seen (err integrity_error) =
    let later = others.at_lookup seen in
    synchronize_found given (find_telegram given.telegram_id later) (others.at_save later)
after_create others given seen (err e) = err e

-- The account that the look found, or a new one.
unfoldable pub found_or_created :
    Addresses → Others → TelegramData → Option Account → Accounts → Result (Account × Accounts)
unfolding create_user synchronize
found_or_created addresses others given none accounts =
    let seen = others.at_insert accounts in
    after_create others given seen (
      create_user addresses (bot_address given.telegram_id) given.telegram_id (metadata given) seen)
found_or_created addresses others given (some account) accounts =
    synchronize given account (others.at_save accounts)

-- `create`
unfoldable pub log_in : Addresses → Others → TelegramData → Accounts → Result (Account × Accounts)
unfolding found_or_created
log_in addresses others given accounts =
    found_or_created addresses others given (find_telegram given.telegram_id accounts) accounts

-- The check of `X-Bot-Internal-Secret`: a secret is set, and the header has it.
unfoldable pub is_bot : Text → Option Text → Bool
is_bot expected supplied = not (null expected) && or_blank supplied =ᵗ expected
