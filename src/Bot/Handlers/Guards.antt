-- ===== src/Bot/Handlers/Guards.antt =====
-- The presses that change nothing: bot/app/handlers/cart.py, `_owned`.
use ludora.Common.{
  Bool-cases, ==→≡, ap, ℕ, ◌==◌, Option, none, some, false, ◌≡◌, refl, ◌⊎◌, inl, inr, holds,
}
use ludora.Bot.Outcome.{returned}
use ludora.Bot.Schemas.Fields.{Formats}
use ludora.Bot.Identity.{TelegramUser}
use ludora.Bot.Session.{Client, World, pure}
use ludora.Bot.Handlers.{
  ItemAction, CartAction, is_owned, invalid_callback, change_cart_item, cart_action,
}

-- The press is without a user, or its user has another id than the owner, or none.
abbrev pub IsStranger : Option TelegramUser → ℕ → Type 0
IsStranger presser owner_id =
    (presser ≡ none) ⊎ ((user : TelegramUser) × (presser ≡ some user) × ¬ (user.id ≡ some owner_id))

holds-false : (id : Option ℕ) (n : ℕ) → ¬ (id ≡ some n) → holds id n ≡ false
holds-false none n other = refl
holds-false (some m) n other = elim (Bool-cases (m == n)) [
  | inl same ↦ absurd (other (ap (λ (k : ℕ). some k) (==→≡ m n same)))
  | inr differs ↦ differs
]

is_owned-IsStranger :
    (presser : Option TelegramUser) (owner_id : ℕ)
    → IsStranger presser owner_id
    → is_owned presser owner_id ≡ false
is_owned-IsStranger presser n (inl nobody) = rw nobody refl
is_owned-IsStranger presser n (inr (user, is, other)) = rw is (holds-false user.id n other)

module _ (formats : Formats) (client : Client) (presser : Option TelegramUser) (owner_id : ℕ)
    (world : World) where
  -- A press on a button of a cart by anybody but its owner, or without a user, sends nothing, changes
  -- no stored tokens, and is answered as invalid, whatever the button.
  pub stranger_press_is_quiet :
      (item_action : ItemAction) (item_id : ℕ) (action : CartAction)
      → IsStranger presser owner_id
      → (change_cart_item formats client presser item_action item_id owner_id world
          ≡ (returned invalid_callback, world))
        × (cart_action formats client presser action owner_id world
            ≡ (returned invalid_callback, world))
  unfolding change_cart_item cart_action pure
  stranger_press_is_quiet item_action item_id action stranger =
      let refused = is_owned-IsStranger presser owner_id stranger in
      (rw refused refl, rw refused refl)
