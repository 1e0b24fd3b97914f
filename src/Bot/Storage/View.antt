-- ===== src/Bot/Storage/View.antt =====
-- The token storage as a function from Telegram ids to tokens.
use ludora.Common.{ℕ, ◌≡◌, refl, List, [], ◌∷◌, Option, none, some, ◌==◌, arith, if◌then◌else◌}
use ludora.Bot.Identity.{AuthTokens}
use ludora.Bot.Storage.{Entry, get_tokens, set_tokens, delete_tokens}

-- What the storage holds for each id.
abbrev pub view : List Entry → ℕ → Option AuthTokens
view entries n = get_tokens n entries

-- The function with another value at one id.
abbrev pub updated : ℕ → Option AuthTokens → (ℕ → Option AuthTokens) → ℕ → Option AuthTokens
updated n value f m = if n == m then value else f m

pub get_tokens-set :
    (n m : ℕ) (tokens : AuthTokens) (entries : List Entry)
    → get_tokens m (set_tokens n tokens entries) ≡ updated n (some tokens) (view entries) m
get_tokens-set n m tokens [] = refl
get_tokens-set n m tokens (e ∷ es) = ground (arith, get_tokens-set n m tokens es)

pub get_tokens-delete :
    (n m : ℕ) (entries : List Entry)
    → get_tokens m (delete_tokens n entries) ≡ updated n none (view entries) m
get_tokens-delete n m [] = ground arith
get_tokens-delete n m (e ∷ es) = ground (arith, get_tokens-delete n m es)
