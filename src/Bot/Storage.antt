-- ===== src/Bot/Storage.antt =====
-- bot/app/auth/storage.py, `InMemoryTokenStorage`: a dictionary of tokens by Telegram id. The lock
-- that makes each operation one step is left out.
pub mod View
use ludora.Common.{ℕ, List, [], ◌∷◌, Option, none, some, ◌==◌, if◌then◌else◌}
use ludora.Bot.Identity.{AuthTokens}

pub record Entry : Type 0 where
  pub telegram_id : ℕ
  pub tokens : AuthTokens

-- `self._tokens.get(telegram_id)`
abbrev pub get_tokens : ℕ → List Entry → Option AuthTokens
get_tokens n [] = none
get_tokens n (e ∷ es) =
    let rest = get_tokens n es in if e.telegram_id == n then some e.tokens else rest

-- `self._tokens[telegram_id] = tokens`: in the place of the id's entry, or behind all others.
abbrev pub set_tokens : ℕ → AuthTokens → List Entry → List Entry
set_tokens n tokens [] = record { telegram_id = n; tokens = tokens } ∷ []
set_tokens n tokens (e ∷ es) =
    let rest = set_tokens n tokens es in
    if e.telegram_id == n then record { telegram_id = n; tokens = tokens } ∷ es else e ∷ rest

-- `self._tokens.pop(telegram_id, None)`: a dictionary has one entry for an id at most, so none is left.
abbrev pub delete_tokens : ℕ → List Entry → List Entry
delete_tokens n [] = []
delete_tokens n (e ∷ es) =
    let rest = delete_tokens n es in if e.telegram_id == n then rest else e ∷ rest
