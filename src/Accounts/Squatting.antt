-- ===== src/Accounts/Squatting.antt =====
-- A login whose address another account has: backend/apps/authentication/serializers.py, the lookup after an
-- `IntegrityError`.
use ludora.Common.{
  Bool, true, ◌||◌, ◌≡◌, refl, ap, ◌∙◌, List, [], ◌∷◌, Option, none, Text, ◌=ᵗ◌, any, holds, arith,
}
use ludora.Store.{err, does_not_exist, integrity_error}
use ludora.Accounts.{
  Account, Accounts, Addresses, Others, TelegramData, metadata, find_telegram, bot_address,
  create_user, after_create, synchronize_found, found_or_created, log_in,
}

-- Whether an account has the address, whatever the case of its letters.
abbrev pub has_address : Addresses → Text → Accounts → Bool
has_address addresses address accounts =
    any (λ a. addresses.lower a.email =ᵗ addresses.lower address) accounts.rows

any-either :
    (p q : Account → Bool) (xs : List Account) → any p xs ≡ true → any (λ a. p a || q a) xs ≡ true
any-either p q [] h = cc
any-either p q (x ∷ xs) h = ground (arith, h, any-either p q xs)

create_user-taken :
    (addresses : Addresses) (given : TelegramData) (accounts : Accounts)
    → has_address addresses (addresses.normalize (bot_address given.telegram_id)) accounts ≡ true
    → create_user addresses
        (bot_address given.telegram_id)
        given.telegram_id
        (metadata given)
        accounts
      ≡ err integrity_error
unfolding create_user
create_user-taken addresses given accounts taken =
    rw
      (any-either
        (λ a.
          addresses.lower a.email
          =ᵗ addresses.lower (addresses.normalize (bot_address given.telegram_id)))
        (λ a. holds a.telegram_id given.telegram_id) accounts.rows taken)
      refl

-- A Telegram user without an account cannot log in while an account without that Telegram id has
-- the address that the login makes up for the user: the insertion is refused, and the lookup after
-- it finds nothing and raises `DoesNotExist`.
pub squatted_address_refuses :
    (addresses : Addresses) (others : Others) (given : TelegramData) (accounts : Accounts)
    → find_telegram given.telegram_id accounts ≡ none
    → find_telegram given.telegram_id (others.at_lookup (others.at_insert accounts)) ≡ none
    → has_address addresses
        (addresses.normalize (bot_address given.telegram_id))
        (others.at_insert accounts)
      ≡ true
    → log_in addresses others given accounts ≡ err does_not_exist
unfolding log_in
squatted_address_refuses addresses others given accounts missing still taken =
    let seen = others.at_insert accounts in
    let later = others.at_lookup seen in
    ap (λ (found : Option Account). found_or_created addresses others given found accounts) missing
    ∙ ap (after_create others given seen) (create_user-taken addresses given seen taken)
    ∙ ap (λ (found : Option Account). synchronize_found given found (others.at_save later)) still
