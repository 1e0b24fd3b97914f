-- ===== src/Bot/Keyboards.antt =====
-- bot/app/keyboards: the buttons under a message, with the callback that each sends when it is pressed.
pub mod Valid
use ludora.Common.{
  ℕ, ◌+◌, ◌-◌, ◌<◌, ◌&&◌, List, [], ◌∷◌, ◌++◌, map, Option, none, some, Text, codes, ltb, leb, take,
  print_decimal, if◌then◌else◌,
}
use ludora.Bot.Schemas.Catalogue.{Product, ProductPage, CartItem, Cart}
use ludora.Bot.Schemas.Purchases.{OrderSummary}
use ludora.Bot.Handlers.{
  ItemAction, inc, dec, remove, CartAction, clear, checkout, clear_yes, checkout_yes,
}
use ludora.Bot.Messages.{translate}

-- The classes of bot/app/keyboards/callbacks.py, and the callbacks that are a bare word.
pub data Callback : Type 0 where
  catalogue_page : ℕ → Callback
  product : ℕ → ℕ → Callback
  add_cart : ℕ → Callback
  cart_item : ItemAction → ℕ → ℕ → Callback
  cart_action : CartAction → ℕ → Callback
  order_detail : ℕ → ℕ → Callback
  word : Text → Callback

pub record Button : Type 0 where
  pub label : Text
  pub callback : Callback

-- `PositiveInt` of each number: the class refuses to be made of others.
abbrev pub IsAccepted : Callback → Type 0
IsAccepted (catalogue_page page) = 0 < page
IsAccepted (product product_id page) = (0 < product_id) × (0 < page)
IsAccepted (add_cart product_id) = 0 < product_id
IsAccepted (cart_item action item_id owner_id) = (0 < item_id) × (0 < owner_id)
IsAccepted (cart_action action owner_id) = 0 < owner_id
IsAccepted (order_detail order_id owner_id) = (0 < order_id) × (0 < owner_id)
IsAccepted (word t) = Unit

abbrev pub button : Text → Callback → Button
button label callback = record { label = label; callback = callback }

-- A button with a translated label.
abbrev pub labelled : Text → Text → Callback → Button
labelled key language callback = button (translate key language []) callback

abbrev pub previous_button : Text → ProductPage → List Button
previous_button language page =
    if page.has_previous && ltb 1 page.page
    then labelled (codes "button.previous") language (catalogue_page (page.page - 1)) ∷ []
    else []

abbrev pub next_button : Text → ProductPage → List Button
next_button language page =
    if page.has_next
    then labelled (codes "button.next") language (catalogue_page (page.page + 1)) ∷ []
    else []

abbrev pub row_if_any : List Button → List (List Button)
row_if_any [] = []
row_if_any (b ∷ bs) = (b ∷ bs) ∷ []

abbrev pub language_row : Text → List Button
language_row language =
    labelled (codes "button.language") language (word (codes "choose_language")) ∷ []

abbrev pub product_row : Text → ProductPage → Product → List Button
product_row language page item =
    button (translate (codes "button.details") language [] ++ codes " · " ++ take 32 item.title)
      (product item.id page.page)
    ∷ []

-- `catalogue_keyboard`
unfoldable pub catalogue_keyboard : ProductPage → Text → List (List Button)
catalogue_keyboard page language =
    map (product_row language page) page.products
    ++ row_if_any (previous_button language page ++ next_button language page)
    ++ language_row language ∷ []

abbrev pub add_row : Text → Option ℕ → List (List Button)
add_row language none = []
add_row language (some product_id) =
    (labelled (codes "button.add_cart") language (add_cart product_id) ∷ []) ∷ []

-- `product_keyboard`
unfoldable pub product_keyboard : ℕ → Text → Option ℕ → List (List Button)
product_keyboard page language product_id =
    let safe_page = if leb 1 page then page else 1 in
    add_row language product_id
    ++ (labelled (codes "button.back") language (catalogue_page safe_page) ∷ [])
      ∷ language_row language
      ∷ []

abbrev pub item_row : ℕ → CartItem → List Button
item_row owner_id item =
    button (codes "−") (cart_item dec item.id owner_id)
    ∷ button (print_decimal item.quantity ++ codes " · " ++ take 24 item.product.title)
        (cart_item inc item.id owner_id)
    ∷ button (codes "✕") (cart_item remove item.id owner_id)
    ∷ []

abbrev pub cart_rows : Text → ℕ → List CartItem → List (List Button)
cart_rows language owner_id [] = []
cart_rows language owner_id (item ∷ items) =
    (labelled (codes "button.checkout") language (cart_action checkout owner_id) ∷ [])
    ∷ (labelled (codes "button.clear_cart") language (cart_action clear owner_id) ∷ [])
    ∷ []

-- `cart_keyboard`
unfoldable pub cart_keyboard : Cart → ℕ → Text → List (List Button)
cart_keyboard cart owner_id language =
    map (item_row owner_id) cart.items ++ cart_rows language owner_id cart.items

abbrev pub confirmed : CartAction → CartAction
confirmed clear = clear_yes
confirmed _ = checkout_yes

-- `confirmation_keyboard`
unfoldable pub confirmation_keyboard : CartAction → ℕ → Text → List (List Button)
confirmation_keyboard action owner_id language =
    (labelled (codes "button.confirm") language (cart_action (confirmed action) owner_id)
      ∷ labelled (codes "button.cancel") language (word (codes "cart"))
      ∷ [])
    ∷ []

-- `orders_keyboard`
unfoldable pub orders_keyboard : List OrderSummary → ℕ → Text → List (List Button)
orders_keyboard orders owner_id language =
    map
      (λ order.
        button
          (translate (codes "button.order_details") language
            ((codes "order_id", print_decimal order.id) ∷ []))
          (order_detail order.id owner_id)
        ∷ [])
      orders
