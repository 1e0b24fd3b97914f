-- ===== src/Tests/Logins.antt =====
-- The theorems on logins and on texts, applied to a small table of users.
use ludora.Common.{◌≡◌, refl, [], ◌∷◌, none, some, Text, codes, print_decimal}
use ludora.Store.{ok, err, does_not_exist}
use ludora.Bot.Outcome.{conflict}
use ludora.Bot.Messages.{resolve_language, translate, error_key}
use ludora.Bot.Messages.Table.{lookup}
use ludora.Bot.Messages.English.{english}
use ludora.Bot.Messages.Coverage.{IsText, translate-IsText, error_key-IsText}
use ludora.Accounts.{Account, Accounts, Addresses, Others, TelegramData, log_in}
use ludora.Accounts.Login.{IsLoggedIn, log_in-IsLoggedIn, log_in_twice}
use ludora.Accounts.Squatting.{squatted_address_refuses}
use ludora.Accounts.Races.{DeletesNone, Succeeds, log_in-Succeeds}

abbrev addresses : Addresses
addresses = record { normalize = λ t. t; lower = λ t. t }

-- No other request commits.
abbrev quiet : Others
quiet = record { at_insert = λ a. a; at_lookup = λ a. a; at_save = λ a. a }

abbrev account : Text → Account
account first_name = record {
  id = 1;
  email = codes "telegram-7@bot.ludora.invalid";
  telegram_id = some 7;
  telegram_username = codes "ann";
  first_name = first_name;
  last_name = [];
  telegram_language_code = codes "ru";
}

abbrev ann : TelegramData
ann = record {
  telegram_id = 7;
  username = some (codes "ann");
  first_name = some (codes "Ann");
  last_name = none;
  language_code = some (codes "ru");
}

abbrev before : Accounts
before = record { rows = account (codes "Anna") ∷ []; next_id = 2 }

abbrev after : Accounts
after = record { rows = account (codes "Ann") ∷ []; next_id = 2 }

renamed : log_in addresses quiet ann before ≡ ok (account (codes "Ann"), after)
unfolding log_in
renamed = refl

log_in-IsLoggedIn_example : IsLoggedIn ann (account (codes "Ann")) after
log_in-IsLoggedIn_example =
    log_in-IsLoggedIn addresses quiet ann before after (account (codes "Ann")) (λ t. refl) renamed

log_in_twice_example : log_in addresses quiet ann after ≡ ok (account (codes "Ann"), after)
log_in_twice_example =
    log_in_twice addresses quiet quiet ann before after (account (codes "Ann")) (λ t. refl)
      (λ t. refl) renamed

-- Another request inserts the account between the look and the insertion.
abbrev none_yet : Accounts
none_yet = record { rows = []; next_id = 1 }

abbrev racing : Others
racing = record quiet { at_insert = λ a. before }

deletes_none : DeletesNone (λ a. a)
deletes_none = record { keeps_telegram = λ n t there. there; keeps_row = λ id t there. there }

log_in-Succeeds_example : Succeeds (log_in addresses racing ann none_yet)
unfolding print_decimal
log_in-Succeeds_example =
    log_in-Succeeds addresses racing ann deletes_none deletes_none none_yet refl

abbrev squatted : Accounts
squatted = record { rows = record (account (codes "Eve")) { telegram_id = none } ∷ []; next_id = 2 }

squatted_address_refuses_example : log_in addresses quiet ann squatted ≡ err does_not_exist
unfolding print_decimal
squatted_address_refuses_example =
    squatted_address_refuses addresses quiet ann squatted refl refl refl

page : lookup (codes "catalogue.page") english ≡ some (codes "Page {page}")
unfolding english
page = refl

translate-IsText_example :
    IsText
      (codes "catalogue.page")
      (resolve_language (some (codes "ru-RU")) (codes "en"))
      ((codes "page", codes "3") ∷ [])
      (translate (codes "catalogue.page") (codes "ru-RU") ((codes "page", codes "3") ∷ []))
translate-IsText_example =
    translate-IsText (codes "catalogue.page") (codes "Page {page}") (codes "ru-RU")
      ((codes "page", codes "3") ∷ []) page refl

error_key-IsText_example :
    IsText
      (error_key conflict)
      (resolve_language (some (codes "ru")) (codes "en"))
      []
      (translate (error_key conflict) (codes "ru") [])
error_key-IsText_example = error_key-IsText conflict (codes "ru")
