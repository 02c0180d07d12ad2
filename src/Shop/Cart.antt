-- ===== src/Shop/Cart.antt =====
-- core/application/cart: the use cases on a user's cart.
use api_neutra_v.Prelude.{
  String, Option, none, some, List, [], map, find, str_eq, is_empty, ◌<>◌, if◌then◌else◌,
}
use api_neutra_v.Prelude.Int.{ℤ, pos, ◌+ℤ◌, ◌-ℤ◌, ltb_ℤ}
use api_neutra_v.Errors.{
  domain, entity_not_found_error, validation_error, business_rule_violation_as,
}
use api_neutra_v.Runtime.{
  Action, ◌>>=◌, ◌>>◌, pure, query, throw_if, or_throw, try_catch, rethrow, UseCaseResult,
  success_of,
}
use api_neutra_v.Runtime.Number.{Number}
use api_neutra_v.Shop.Entity.{
  CartProduct, CartItem, FullItem, Cart, CartRepository, ProductRepository,
}

-- `{ ...item.product, amount: item.amount }`
pub record CartLine (N : Type 0) : Type 0 where
  pub product : CartProduct N
  pub amount : ℤ

abbrev pub line_of : {N : Type 0} → FullItem N → CartLine N
line_of i = record { product = i.product; amount = i.item.amount }

-- `cart.items.find((item) => item.productId === productId)`
abbrev pub existing_item : String → List CartItem → Option CartItem
existing_item id items = find (λ i. str_eq i.product_id id) items

-- `existingItem?.amount || 0`
abbrev pub current_qty : Option CartItem → ℤ
current_qty none = pos 0
current_qty (some i) = i.amount

-- `Math.max(0, a)`
abbrev at_least_nought : ℤ → ℤ
at_least_nought a = if ltb_ℤ a (pos 0) then pos 0 else a

module _ {S N : Type 0} (num : Number N) (carts : CartRepository S N) where
  unfoldable pub get_cart : String → String → Action S (UseCaseResult (List (CartLine N)))
  get_cart tenant user = do
    found ← query (carts.find_by_user_id tenant user)
    cart ← or_throw found (entity_not_found_error "Cart" user)
    let lines = map line_of cart.items in
        pure (
          success_of (some lines)
            (if is_empty lines then "Cart is empty" else "Cart items retrieved successfully"))

  abbrev text_of : ℤ → String
  text_of a = num.show (num.of_int a)

  abbrev stock_message : ℤ → ℤ → ℤ → String
  stock_message amount current stock =
      if ltb_ℤ (pos 0) current
      then "Cannot add "
        <> text_of amount
        <> " items. Only "
        <> text_of (at_least_nought (stock -ℤ current))
        <> " more available ("
        <> text_of stock
        <> " total stock, "
        <> text_of current
        <> " already in cart)"
      else "Insufficient stock. Only " <> text_of stock <> " items available"

  -- `if (!cart) { cart = await this.cartRepository.create(tenantId, userId); }`
  abbrev pub or_new_cart : String → String → Option (Cart CartItem) → Action S (Cart CartItem)
  or_new_cart tenant user none = carts.create tenant user
  or_new_cart tenant user (some cart) = pure cart

  abbrev pub put_item : String → String → String → Option CartItem → ℤ → ℤ → Action S CartItem
  put_item tenant cart product (some item) amount total =
      carts.update_item_amount tenant cart product total
  put_item tenant cart product none amount total = carts.add_item tenant cart product amount

  abbrev pub added_message : Option CartItem → ℤ → ℤ → String
  added_message (some item) amount total = "Updated quantity to " <> text_of total <> " items"
  added_message none amount total = "Added " <> text_of amount <> " item(s) to cart"

  -- The value of the result is `totalQuantity`.
  unfoldable pub add_to_cart :
      ProductRepository S N → String → String → String → ℤ → Action S (UseCaseResult ℤ)
  add_to_cart products tenant user id amount = do
    found ← query (carts.find_by_user_id_simple tenant user)
    cart ← or_new_cart tenant user found
    known ← query (products.find_by_id tenant id)
    product ← or_throw known (entity_not_found_error "Product" id)
    let existing = existing_item id cart.items in
        let total = current_qty existing +ℤ amount in
        do
          throw_if (ltb_ℤ product.stock total) (
              business_rule_violation_as (stock_message amount (current_qty existing) product.stock)
                "INSUFFICIENT_STOCK")
          put_item tenant cart.id id existing amount total
          pure (success_of (some total) (added_message existing amount total))

  unfoldable pub change_amount : String → String → String → ℤ → Action S (UseCaseResult (Unit {0}))
  change_amount tenant user product amount = do
    throw_if (ltb_ℤ amount (pos 1)) (validation_error "Amount must be a positive number")
    found ← query (carts.find_by_user_id_simple tenant user)
    cart ← or_throw found (entity_not_found_error "Cart" user)
    rethrow (λ _. domain (entity_not_found_error "CartItem" product))
        (carts.update_item_amount tenant cart.id product amount)
    pure (success_of none "Amount updated successfully")

  unfoldable pub clear_cart : String → String → Action S (UseCaseResult (Cart CartItem))
  clear_cart tenant user = do
    found ← query (carts.find_by_user_id_simple tenant user)
    cart ← or_throw found (entity_not_found_error "Cart" user)
    carts.clear_items tenant cart.id
    pure (success_of (some (record cart { items = [] })) "Cart cleared successfully")

  unfoldable pub remove_from_cart : String → String → String → Action S (UseCaseResult (Unit {0}))
  remove_from_cart tenant user product = do
    found ← query (carts.find_by_user_id_simple tenant user)
    cart ← or_throw found (entity_not_found_error "Cart" user)
    try_catch (carts.remove_item tenant cart.id product) (λ _. pure tt)
    pure (success_of none "Item removed successfully")

  unfoldable pub create_cart : String → String → Action S (UseCaseResult (Cart CartItem))
  create_cart tenant user = do
    cart ← carts.create tenant user
    pure (success_of (some cart) "Cart created successfully")
