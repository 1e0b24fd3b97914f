-- ===== src/Bot/Identity.antt =====
-- bot/app/auth/models.py: the identity of a Telegram user, tokens, and the backend's answer to both.
use ludora.Common.{ℕ, Option, none, some, Text, codes}
use ludora.Json.{Json, empty, integer, text, object, nil, member, get}
use ludora.Bot.Outcome.{value_error, Outcome, returned, raised, ◌>>=◌, valid}
use ludora.Bot.Schemas.Fields.{
  Formats, Datetime, as_object, as_string, as_required, as_positive, replace_z,
}

-- A user as Telegram reports it: nothing for an id that is not an integer from 0 on.
pub record TelegramUser : Type 0 where
  pub id : Option ℕ
  pub username : Option Text
  pub first_name : Option Text
  pub last_name : Option Text
  pub language_code : Option Text

pub record TelegramIdentity : Type 0 where
  pub telegram_id : ℕ
  pub username : Option Text
  pub first_name : Option Text
  pub last_name : Option Text
  pub language_code : Option Text

abbrev pub with_id : TelegramUser → Option ℕ → Outcome TelegramIdentity
with_id user none = raised value_error
with_id user (some telegram_id) = returned (record {
  telegram_id = telegram_id;
  username = user.username;
  first_name = user.first_name;
  last_name = user.last_name;
  language_code = user.language_code;
})

abbrev pub as_id : Option ℕ → Option ℕ
as_id none = none
as_id (some n) = as_positive (some (integer n))

-- `TelegramIdentity.from_user`
abbrev pub from_user : Option TelegramUser → Outcome TelegramIdentity
from_user none = raised value_error
from_user (some user) = with_id user (as_id user.id)

abbrev pub nullable : Option Text → Json
nullable none = empty
nullable (some t) = text t

-- `TelegramIdentity.as_payload`
unfoldable pub as_payload : TelegramIdentity → Json
as_payload identity = object (
    member (codes "telegram_id") (integer identity.telegram_id) (
      member (codes "username") (nullable identity.username) (
        member (codes "first_name") (nullable identity.first_name) (
          member (codes "last_name") (nullable identity.last_name)
            (member (codes "language_code") (nullable identity.language_code) nil)))))

pub record AuthTokens : Type 0 where
  pub access : Text
  pub refresh : Text

pub record BackendUser : Type 0 where
  pub email : Text
  pub first_name : Text
  pub last_name : Text
  pub telegram_username : Text
  pub telegram_language_code : Text
  pub date_joined : Datetime

pub record AuthResult : Type 0 where
  pub tokens : AuthTokens
  pub user : BackendUser

-- `BackendUser.from_mapping`
unfoldable pub read_backend_user : Formats → Option Json → Outcome BackendUser
read_backend_user formats value = do
  value ← valid (as_object value)
  email ← valid (as_string (get (codes "email") value))
  first_name ← valid (as_string (get (codes "first_name") value))
  last_name ← valid (as_string (get (codes "last_name") value))
  telegram_username ← valid (as_string (get (codes "telegram_username") value))
  telegram_language_code ← valid (as_string (get (codes "telegram_language_code") value))
  joined ← valid (as_string (get (codes "date_joined") value))
  date_joined ← valid (formats.fromisoformat (replace_z joined))
  returned (record {
    email = email;
    first_name = first_name;
    last_name = last_name;
    telegram_username = telegram_username;
    telegram_language_code = telegram_language_code;
    date_joined = date_joined;
  })

-- `AuthResult.from_mapping`
unfoldable pub read_auth_result : Formats → Json → Outcome AuthResult
unfolding read_backend_user
read_auth_result formats value = do
  value ← valid (as_object (some value))
  access ← valid (as_required (get (codes "access") value))
  refresh ← valid (as_required (get (codes "refresh") value))
  user ← read_backend_user formats (get (codes "user") value)
  returned (record { tokens = record { access = access; refresh = refresh }; user = user })
