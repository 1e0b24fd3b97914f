-- ===== src/Bot/Handlers/Quantities.antt =====
-- The quantities that a press on an item of a cart asks for: bot/app/handlers/cart.py, `change_cart_item`,
-- with bot/app/api/schemas.py, `CartItem`.
use ludora.Common.{Bool-cases, inl, inr, ℕ, ◌+◌, ◌-◌, ◌<◌, ◌≡◌, subst, some, codes, ◌==◌, arith}
use ludora.Json.{Json, get}
use ludora.Bot.Outcome.{returned, valid}
use ludora.Bot.Schemas.Fields.{Formats, as_object, positive_int, decimal}
use ludora.Bot.Schemas.Catalogue.{CartItem, read_cart_item, read_product}
use ludora.Bot.Schemas.Yields.{Yields, bind-Yields, as_positive-positive}
use ludora.Bot.Handlers.{ItemAction, inc, dec, remove, remove_item, set_quantity, change_of}

abbrev IsPositive : CartItem → Type 0
IsPositive item = 0 < item.quantity

-- An item of a cart that was read has a positive quantity.
read_cart_item-IsPositive :
    (formats : Formats) (value : Json) → Yields IsPositive (read_cart_item formats value)
unfolding read_cart_item positive_int
read_cart_item-IsPositive formats value =
    bind-Yields IsPositive (valid (as_object (some value))) _ λ members _.
      bind-Yields IsPositive (positive_int (codes "id") members) _ λ id _.
        bind-Yields IsPositive (positive_int (codes "quantity") members) _ λ quantity counted.
          bind-Yields IsPositive (read_product formats (get (codes "product") members)) _
            λ product _.
              bind-Yields IsPositive (decimal formats (codes "unit_price") members) _
                λ unit_price _.
                  bind-Yields IsPositive (decimal formats (codes "line_total") members) _
                    λ line_total _.
                      as_positive-positive (get (codes "quantity") members) quantity counted

change_positive :
    (action : ItemAction) (quantity asked : ℕ)
    → 0 < quantity
    → change_of action quantity ≡ set_quantity asked
    → 0 < asked
unfolding change_of
change_positive inc quantity asked h asks = let is : quantity + 1 ≡ asked = cc in omega (arith, is)
change_positive dec quantity asked h asks = elim (Bool-cases (quantity == 1)) [
  | inl last ↦ absurd (let clash : remove_item ≡ set_quantity asked = rw last at asks in cc)
  | inr more ↦
      let fewer : set_quantity (quantity - 1) ≡ set_quantity asked = rw more at asks in
      let is : quantity - 1 ≡ asked = cc in ground (arith, is, more, h)
]
change_positive remove quantity asked h asks = absurd cc

-- A press on an item of a cart that the bot has read never asks for a quantity of zero: the last
-- unit is taken away by a removal.
pub asked_quantity_is_positive :
    (formats : Formats) (value : Json) (item : CartItem) (action : ItemAction) (asked : ℕ)
    → read_cart_item formats value ≡ returned item
    → change_of action item.quantity ≡ set_quantity asked
    → 0 < asked
asked_quantity_is_positive formats value item action asked reads =
    change_positive action item.quantity asked
      (subst (Yields IsPositive) reads (read_cart_item-IsPositive formats value))
