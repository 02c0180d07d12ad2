-- ===== src/Shop/Order.antt =====
-- core/application/order: create-order, change-order-status, update-order and get-order.
use api_neutra_v.Prelude.{
  Bool, true, false, not, String, Option, none, some, List, [], ◌∷◌, map, str_eq, truthy, ◌<>◌,
  if◌then◌else◌,
}
use api_neutra_v.Prelude.Int.{ℤ, ◌-ℤ◌}
use api_neutra_v.Errors.{
  ErrorName, entity_not_found, Thrown, domain, DomainError, entity_not_found_error,
  business_rule_violation_as, invalid_state_error, invalid_state_as,
}
use api_neutra_v.Runtime.{
  ok, Action, ◌>>=◌, ◌>>◌, pure, query, throw_if, or_throw, rethrow, when, UseCaseResult,
  success_of,
}
use api_neutra_v.Runtime.Number.{Number}
use api_neutra_v.Coupon.{CouponRepository}
use api_neutra_v.Shop.Entity.{
  Product, OrderStatus, pendiente, pagado, enviado, entregado, order_status_text, can_transition_to,
  Order, OrderItemData, OrderCreateData, OrderUpdateData, UpdateProductData, CartRepository,
  ProductRepository, OrderRepository,
}
use api_neutra_v.Shop.Cart.{CartLine, get_cart, clear_cart}

abbrev pub cart_empty : DomainError
cart_empty =
    business_rule_violation_as "Tu carrito esta vacío, no puedes generar una orden." "CART_EMPTY"

-- `error instanceof EntityNotFoundError`
abbrev is_not_found : ErrorName → Bool
is_not_found entity_not_found = true
is_not_found _ = false

abbrev pub empty_if_not_found : Thrown → Thrown
empty_if_not_found (domain e) = if is_not_found e.name then domain cart_empty else domain e
empty_if_not_found e = e

-- `!response.data || response.data.length === 0`, and the lines otherwise.
abbrev nonempty : {N : Type 0} → Option (List (CartLine N)) → Option (List (CartLine N))
nonempty none = none
nonempty (some []) = none
nonempty (some (l ∷ lines)) = some (l ∷ lines)

abbrev pub lines_of : {N : Type 0} → UseCaseResult (List (CartLine N)) → Option (List (CartLine N))
lines_of r = if r.success then nonempty r.value else none

-- A price is a number already, so `parseFloat(String(price))` gives it back.
abbrev pub order_item : {N : Type 0} → CartLine N → OrderItemData N
order_item l = record { product_id = l.product.id; amount = l.amount; price = l.product.price }

abbrev pub order_data :
    {N : Type 0} → String → Option String → List (CartLine N) → OrderCreateData N
order_data user coupon lines = record {
  user_id = user;
  items = map order_item lines;
  coupon_id = coupon;
}

abbrev pub only_stock : {N : Type 0} → ℤ → UpdateProductData N
only_stock n = record {
  name = none;
  price = none;
  description = none;
  image = none;
  stock = some n;
  active = none;
}

-- `validStatuses.includes(status)`, and the status.
abbrev pub parse_status : String → Option OrderStatus
parse_status s =
    if str_eq s "PENDIENTE"
    then some pendiente
    else if str_eq s "PAGADO"
    then some pagado
    else if str_eq s "ENVIADO"
    then some enviado
    else if str_eq s "ENTREGADO"
    then some entregado
    else none

module _ {S N : Type 0} (num : Number N) (carts : CartRepository S N)
    (products : ProductRepository S N) (orders : OrderRepository S N)
    (coupons : CouponRepository S N) where
  abbrev pub take_stock : String → CartLine N → Option (Product N) → Action S (Unit {0})
  take_stock tenant line none = pure tt
  take_stock tenant line (some product) = do
    products.update tenant line.product.id (only_stock (product.stock -ℤ line.amount))
    pure tt

  unfoldable pub take_line : String → CartLine N → Action S (Unit {0})
  take_line tenant line = do
    found ← query (products.find_by_id tenant line.product.id)
    take_stock tenant line found

  -- The loop over the items of the cart.
  unfoldable pub deduct : String → List (CartLine N) → Action S (Unit {0})
  deduct tenant [] = pure tt
  deduct tenant (line ∷ lines) = take_line tenant line >> deduct tenant lines

  abbrev pub count_coupon : String → Option String → Action S (Unit {0})
  count_coupon tenant none = pure tt
  count_coupon tenant (some coupon) = when (truthy coupon) (coupons.increment_usage tenant coupon)

  -- The cart of the user, which may not be missing or empty.
  unfoldable pub cart_lines : String → String → Action S (List (CartLine N))
  cart_lines tenant user = do
    response ← rethrow empty_if_not_found (get_cart num carts tenant user)
    or_throw (lines_of response) cart_empty

  -- What follows the creation of the order. `sendOrderConfirmation` is not awaited and its errors
  -- are dropped: `confirm` is what it does to the store, if anything.
  unfoldable pub settle :
      (String → String → Order N → S → S)
      → String
      → String
      → Option String
      → List (CartLine N)
      → Order N
      → Action S (UseCaseResult (Order N))
  settle confirm tenant user coupon lines order = do
    count_coupon tenant coupon
    deduct tenant lines
    clear_cart num carts tenant user
    λ s. (ok (success_of (some order) "Se ha generado su orden"), confirm tenant user order s)

  unfoldable pub create_order :
      (String → String → Order N → S → S)
      → String
      → String
      → Option String
      → Action S (UseCaseResult (Order N))
  create_order confirm tenant user coupon = do
    lines ← cart_lines tenant user
    order ← orders.create tenant (order_data user coupon lines)
    settle confirm tenant user coupon lines order

  unfoldable pub change_order_status : String → String → String → Action S (UseCaseResult (Order N))
  change_order_status tenant id requested = do
    status ←
        or_throw (parse_status requested)
          (invalid_state_error ("'" <> requested <> "' is not a valid order status"))
    found ← query (orders.find_by_id tenant id)
    order ← or_throw found (invalid_state_error ("Order '" <> id <> "' not found"))
    throw_if (not (can_transition_to order.status status)) (
        invalid_state_as
          ("Order cannot transition from '"
            <> order_status_text order.status
            <> "' to '"
            <> requested
            <> "'")
          "INVALID_STATUS_TRANSITION")
    updated ← orders.update_status tenant id status
    pure (success_of (some updated) "Order status updated")

  unfoldable pub update_order :
      String → String → OrderUpdateData → Action S (UseCaseResult (Order N))
  update_order tenant id changes = do
    order ← orders.update tenant id changes
    pure (success_of (some order) "Order updated successfully")

  unfoldable pub get_order : String → String → Action S (UseCaseResult (Order N))
  get_order tenant id = do
    found ← query (orders.find_by_id tenant id)
    order ← or_throw found (entity_not_found_error "Order" id)
    pure (success_of (some order) "")
