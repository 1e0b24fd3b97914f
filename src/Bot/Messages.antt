-- ===== src/Bot/Messages.antt =====
-- bot/app/localization/translator.py and `error_key` of bot/app/handlers/common.py: the texts of the bot,
-- their choice by language, and the text of an error.
pub mod Table
pub mod English
pub mod Russian
pub mod Coverage
use ludora.Common.{
  ℕ, ◌+◌, Bool, true, false, ◌&&◌, ◌||◌, List, [], ◌∷◌, ◌++◌, Option, none, some, Text, codes, ◌=ᵗ◌,
  ◌==◌, leb, null, map, if◌then◌else◌,
}
use ludora.Bot.Outcome.{
  ApiError, backend_unavailable, backend_timeout, invalid_response, product_not_found,
  resource_not_found, validation_failed, conflict, permission_denied, unexpected_api_status,
  authentication_failed, authentication_required, missing_telegram_user, value_error,
}
use ludora.Bot.Messages.Table.{lookup, or_else, format_template}
use ludora.Bot.Messages.English.{english}
use ludora.Bot.Messages.Russian.{russian}

-- SUPPORTED_LANGUAGES
pub data Language : Type 0 where
  en ru : Language

-- `replace("_", "-").split("-", 1)[0]`
abbrev pub base_of : Text → Text
base_of [] = []
base_of (c ∷ cs) = let rest = base_of cs in if c == 45 || c == 95 then [] else c ∷ rest

-- `lower()` of an ASCII letter: no other letter becomes one of a supported language.
abbrev pub lower : ℕ → ℕ
lower c = if leb 65 c && leb c 90 then c + 32 else c

-- `base if base in SUPPORTED_LANGUAGES else "en"`
abbrev pub supported : Text → Language
supported base = if base =ᵗ codes "ru" then ru else en

-- `resolve_language`, with its default.
unfoldable pub resolve_language : Option Text → Text → Language
resolve_language none default = supported default
resolve_language (some []) default = supported default
resolve_language (some (c ∷ cs)) default = supported (map lower (base_of (c ∷ cs)))

unfoldable pub table : Language → List (Text × Text)
unfolding english russian
table en = english
table ru = russian

abbrev pub format_or_key : Text → List (Text × Text) → Option Text → Text
format_or_key key values none = key
format_or_key key values (some template) = elim (format_template values template) [
  | none ↦ template
  | some formatted ↦ formatted
]

-- `Translator.get`: the text in the language, or in English, or the key; with the values, or the
-- template where it does not fit them.
unfoldable pub translate : Text → Text → List (Text × Text) → Text
unfolding table resolve_language
translate key language values = format_or_key key values (
    or_else (lookup key (table (resolve_language (some language) (codes "en"))))
      (lookup key (table en)))

-- `error_key`; any other exception than these is internal.
abbrev pub error_key : ApiError → Text
error_key backend_timeout = codes "error.timeout"
error_key backend_unavailable = codes "error.unavailable"
error_key (unexpected_api_status n) = codes "error.unavailable"
error_key invalid_response = codes "error.invalid_response"
error_key product_not_found = codes "error.not_found"
error_key resource_not_found = codes "error.resource_not_found"
error_key validation_failed = codes "error.validation"
error_key conflict = codes "error.conflict"
error_key permission_denied = codes "error.permission"
error_key missing_telegram_user = codes "error.missing_user"
error_key authentication_required = codes "error.auth_expired"
error_key authentication_failed = codes "error.auth_failed"
error_key value_error = codes "error.internal"
