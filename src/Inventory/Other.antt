-- ===== src/Inventory/Other.antt =====
-- The transactions of carts and of placement keep the stock.
use ludora.Common.{ℕ, Bool, List, Option, none, some, arith, Text}
use ludora.Store.{◌>>=◌, Cart, CartItem, Product, Source}
use ludora.Store.Hoare.{Keeps, Keeps-modify, Keeps-pure, keeps_rules}
use ludora.Inventory.{HasStock}
use ludora.Inventory.Reserve.{create_order_item-HasStock}
use ludora.Placement.{User, create_order, create_direct_order}
use ludora.Carts.{
  Line, create_cart, or_create, get_or_create_cart, create_cart_item, save_quantity, put_item,
  add_cart_item, own_cart_item, set_cart_item_quantity, delete_cart_items, remove_cart_item,
  clear_cart, create_snapshot, checkout_cart,
}

module _ {strict : Bool} where
  create_order-HasStock :
      (s : Source) (p : Option ℕ) (u : User) (email number : Text) (total : ℕ)
      → Keeps (HasStock strict) (create_order s p u email number total)
  unfolding create_order ◌>>=◌
  create_order-HasStock s p u email number total = record { at = λ db h. ground arith }

  pub create_direct_order-HasStock :
      (number : Text) (u : User) (p : Product) (email : Text)
      → Keeps (HasStock strict) (create_direct_order number u p email)
  unfolding create_direct_order
  create_direct_order-HasStock number u p email =
      search (keeps_rules, create_order-HasStock, create_order_item-HasStock)

  create_cart-HasStock : (n : ℕ) → Keeps (HasStock strict) (create_cart n)
  unfolding create_cart ◌>>=◌
  create_cart-HasStock n = record { at = λ db h. h }

  or_create-HasStock : (n : ℕ) (c : Option Cart) → Keeps (HasStock strict) (or_create n c)
  or_create-HasStock n none = create_cart-HasStock n
  or_create-HasStock n (some c) = Keeps-pure c

  get_or_create_cart-HasStock : (n : ℕ) → Keeps (HasStock strict) (get_or_create_cart n)
  unfolding get_or_create_cart
  get_or_create_cart-HasStock n = search (keeps_rules, or_create-HasStock)

  save_quantity-HasStock : (i : CartItem) (q : ℕ) → Keeps (HasStock strict) (save_quantity i q)
  unfolding save_quantity ◌>>=◌
  save_quantity-HasStock i q = record { at = λ db h. ground arith }

  create_cart_item-HasStock : (c p q : ℕ) → Keeps (HasStock strict) (create_cart_item c p q)
  unfolding create_cart_item ◌>>=◌
  create_cart_item-HasStock c p q = record { at = λ db h. ground arith }

  put_item-HasStock :
      (c p q n : ℕ) (i : Option CartItem) → Keeps (HasStock strict) (put_item c p q n i)
  put_item-HasStock c p q n none = create_cart_item-HasStock c p q
  put_item-HasStock c p q n (some i) = save_quantity-HasStock i n

  pub add_cart_item-HasStock : (u p q : ℕ) → Keeps (HasStock strict) (add_cart_item u p q)
  unfolding add_cart_item
  add_cart_item-HasStock u p q =
      search (keeps_rules, get_or_create_cart-HasStock, put_item-HasStock) depth 9

  own_cart_item-HasStock : (u i : ℕ) → Keeps (HasStock strict) (own_cart_item u i)
  unfolding own_cart_item
  own_cart_item-HasStock u i = search keeps_rules

  pub set_cart_item_quantity-HasStock :
      (u i q : ℕ) → Keeps (HasStock strict) (set_cart_item_quantity u i q)
  unfolding set_cart_item_quantity
  set_cart_item_quantity-HasStock u i q =
      search (keeps_rules, own_cart_item-HasStock, save_quantity-HasStock)

  delete_cart_items-HasStock : (p : CartItem → Bool) → Keeps (HasStock strict) (delete_cart_items p)
  delete_cart_items-HasStock p = Keeps-modify _ (λ db h. h)

  pub remove_cart_item-HasStock : (u i : ℕ) → Keeps (HasStock strict) (remove_cart_item u i)
  unfolding remove_cart_item
  remove_cart_item-HasStock u i =
      search (keeps_rules, own_cart_item-HasStock, delete_cart_items-HasStock)

  pub clear_cart-HasStock : (u : ℕ) → Keeps (HasStock strict) (clear_cart u)
  unfolding clear_cart
  clear_cart-HasStock u =
      search (keeps_rules, get_or_create_cart-HasStock, delete_cart_items-HasStock)

  create_snapshot-HasStock :
      (o : ℕ) (lines : List Line) → Keeps (HasStock strict) (create_snapshot o lines)
  unfolding create_snapshot ◌>>=◌
  create_snapshot-HasStock o lines = record { at = λ db h. ground arith }

  pub checkout_cart-HasStock :
      (number : Text) (u : User) → Keeps (HasStock strict) (checkout_cart number u)
  unfolding checkout_cart
  checkout_cart-HasStock number u =
      search
        (
          keeps_rules, get_or_create_cart-HasStock, create_order-HasStock, create_snapshot-HasStock,
          delete_cart_items-HasStock,
        )
        depth 11
