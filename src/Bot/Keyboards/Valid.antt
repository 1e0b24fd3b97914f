-- ===== src/Bot/Keyboards/Valid.antt =====
-- The callbacks under what the bot has read: bot/app/keyboards with bot/app/api/schemas.py.
use ludora.Common.{
  ℕ, ◌<◌, not, ◌&&◌, ◌≡◌, refl, subst, List, [], ◌∷◌, ◌++◌, map, Option, some, Text, codes, ltb,
  All, Bool-cases, inl, inr, arith,
}
use ludora.Json.{Json, get}
use ludora.Bot.Outcome.{returned, valid, check}
use ludora.Bot.Schemas.Fields.{
  Formats, as_object, as_list, as_string, as_count, is_blank_text, positive_int, optional_string,
  decimal, each,
}
use ludora.Bot.Schemas.Catalogue.{
  Product, ProductPage, CartItem, Cart, read_product, read_product_page, read_cart_item, read_cart,
  read_categories, read_flag,
}
use ludora.Bot.Schemas.Yields.{Yields, bind-Yields, as_positive-positive, each-Yields}
use ludora.Bot.Keyboards.{
  Button, IsAccepted, previous_button, next_button, row_if_any, product_row, item_row, cart_rows,
  catalogue_keyboard, cart_keyboard,
}

abbrev IsProduct : Product → Type 0
IsProduct p = 0 < p.id

abbrev IsPage : ℕ → ProductPage → Type 0
IsPage page p = All IsProduct p.products × (p.page ≡ page)

abbrev IsItem : CartItem → Type 0
IsItem item = 0 < item.id

abbrev IsCart : Cart → Type 0
IsCart cart = All IsItem cart.items

-- Each button's callback is accepted by its class.
abbrev pub AreAccepted : List (List Button) → Type 0
AreAccepted rows = All (All (λ b. IsAccepted b.callback)) rows

read_product-IsProduct :
    (formats : Formats) (value : Option Json) → Yields IsProduct (read_product formats value)
unfolding read_product positive_int
read_product-IsProduct formats value =
    bind-Yields IsProduct (valid (as_object value)) _ λ members _.
      bind-Yields IsProduct (positive_int (codes "id") members) _ λ id counted.
        bind-Yields IsProduct (valid (as_string (get (codes "title") members))) _ λ title _.
          bind-Yields IsProduct (check (not (is_blank_text formats title))) _ λ _ _.
            bind-Yields IsProduct (decimal formats (codes "price") members) _ λ price _.
              bind-Yields IsProduct (optional_string (codes "platform") members) _ λ platform _.
                bind-Yields IsProduct (optional_string (codes "product_type") members) _
                  λ product_type _.
                    bind-Yields IsProduct (optional_string (codes "slug") members) _ λ slug _.
                      bind-Yields IsProduct (optional_string (codes "description") members) _
                        λ description _.
                          bind-Yields IsProduct (read_categories (get (codes "categories") members))
                            _
                            λ categories _.
                              bind-Yields IsProduct (read_flag (get (codes "is_active") members)) _
                                λ is_active _.
                                  as_positive-positive (get (codes "id") members) id counted

read_product_page-IsPage :
    (formats : Formats) (value : Json) (page : ℕ)
    → Yields (IsPage page) (read_product_page formats value page)
unfolding read_product_page
read_product_page-IsPage formats value page =
    bind-Yields (IsPage page) (valid (as_object (some value))) _ λ members _.
      bind-Yields (IsPage page) (valid (as_count (get (codes "count") members))) _ λ count _.
        bind-Yields (IsPage page) (valid (as_list (get (codes "results") members))) _ λ results _.
          bind-Yields (IsPage page) (each (λ item. read_product formats (some item)) results) _
            λ products read. (
              subst (Yields (All IsProduct)) read (
                  each-Yields IsProduct (λ item. read_product formats (some item)) results
                    λ item. read_product-IsProduct formats (some item)),
              refl,
            )

read_cart_item-IsItem :
    (formats : Formats) (value : Json) → Yields IsItem (read_cart_item formats value)
unfolding read_cart_item positive_int
read_cart_item-IsItem formats value =
    bind-Yields IsItem (valid (as_object (some value))) _ λ members _.
      bind-Yields IsItem (positive_int (codes "id") members) _ λ id counted.
        bind-Yields IsItem (positive_int (codes "quantity") members) _ λ quantity _.
          bind-Yields IsItem (read_product formats (get (codes "product") members)) _ λ product _.
            bind-Yields IsItem (decimal formats (codes "unit_price") members) _ λ unit_price _.
              bind-Yields IsItem (decimal formats (codes "line_total") members) _
                λ line_total _. as_positive-positive (get (codes "id") members) id counted

read_cart-IsCart : (formats : Formats) (value : Json) → Yields IsCart (read_cart formats value)
unfolding read_cart
read_cart-IsCart formats value = bind-Yields IsCart (valid (as_object (some value))) _ λ members _.
    bind-Yields IsCart (valid (as_list (get (codes "items") members))) _ λ items _.
      bind-Yields IsCart (positive_int (codes "id") members) _ λ id _.
        bind-Yields IsCart (valid (as_count (get (codes "total_quantity") members))) _ λ total _.
          bind-Yields IsCart (each (read_cart_item formats) items) _ λ cart_items read.
            bind-Yields IsCart (decimal formats (codes "total_price") members) _ λ total_price _.
              subst (Yields (All IsItem)) read
                (each-Yields IsItem (read_cart_item formats) items (read_cart_item-IsItem formats))

append-All : {A : Type 0} (P : A → Type 0) (xs ys : List A) → All P xs → All P ys → All P (xs ++ ys)
append-All P [] ys h k = k
append-All P (x ∷ xs) ys h k = (h.0, append-All P xs ys h.1 k)

map-All :
    {A B : Type 0} (P : A → Type 0) (Q : B → Type 0) (f : A → B) (xs : List A)
    → ((a : A) → P a → Q (f a))
    → All P xs
    → All Q (map f xs)
map-All P Q f [] h k = tt
map-All P Q f (x ∷ xs) h k = (h x k.0, map-All P Q f xs h k.1)

abbrev IsRow : List Button → Type 0
IsRow = All λ b. IsAccepted b.callback

row_if_any-IsRow : (buttons : List Button) → IsRow buttons → All IsRow (row_if_any buttons)
row_if_any-IsRow [] h = tt
row_if_any-IsRow (b ∷ bs) h = (h, tt)

previous_button-IsRow :
    (language : Text) (page : ProductPage) → IsRow (previous_button language page)
previous_button-IsRow language page = elim (Bool-cases (page.has_previous && ltb 1 page.page)) [
  | inl shown ↦ rw shown (ground (arith, shown), tt)
  | inr hidden ↦ rw hidden tt
]

next_button-IsRow : (language : Text) (page : ProductPage) → IsRow (next_button language page)
next_button-IsRow language page = elim (Bool-cases page.has_next) [
  | inl shown ↦ rw shown (omega arith, tt)
  | inr hidden ↦ rw hidden tt
]

-- Each button under a page of products that the bot has read can be pressed: its class accepts the
-- product's id and the page, those of the pages before and behind included.
pub catalogue_keyboard-AreAccepted :
    (formats : Formats) (value : Json) (page : ℕ) (found : ProductPage) (language : Text)
    → 0 < page
    → read_product_page formats value page ≡ returned found
    → AreAccepted (catalogue_keyboard found language)
unfolding catalogue_keyboard
catalogue_keyboard-AreAccepted formats value page found language positive reads =
    let read : IsPage page found =
      subst (Yields (IsPage page)) reads (read_product_page-IsPage formats value page) in
    append-All IsRow _ _
      (append-All IsRow _ _
        (map-All IsProduct IsRow (product_row language found) found.products
          (λ p h. ((h, omega (arith, positive, read.1)), tt)) read.0)
        (row_if_any-IsRow _ (
          append-All (λ b. IsAccepted b.callback) (previous_button language found)
            (next_button language found) (previous_button-IsRow language found)
            (next_button-IsRow language found))))
      ((tt, tt), tt)

cart_rows-IsRow :
    (language : Text) (owner_id : ℕ) (items : List CartItem)
    → 0 < owner_id
    → All IsRow (cart_rows language owner_id items)
cart_rows-IsRow language owner_id [] h = tt
cart_rows-IsRow language owner_id (item ∷ items) h = ((h, tt), ((h, tt), tt))

-- Each button under a cart that the bot has read can be pressed: its class accepts the item's id
-- and the owner's.
pub cart_keyboard-AreAccepted :
    (formats : Formats) (value : Json) (cart : Cart) (owner_id : ℕ) (language : Text)
    → 0 < owner_id
    → read_cart formats value ≡ returned cart
    → AreAccepted (cart_keyboard cart owner_id language)
unfolding cart_keyboard
cart_keyboard-AreAccepted formats value cart owner_id language owner reads =
    append-All IsRow _ _
      (map-All IsItem IsRow (item_row owner_id) cart.items
        (λ item h. ((h, owner), ((h, owner), ((h, owner), tt))))
        (subst (Yields IsCart) reads (read_cart-IsCart formats value)))
      (cart_rows-IsRow language owner_id cart.items owner)
