-- ===== src/Tests/Shop.antt =====
-- The shop: runs over a table of products in memory, and the theorems at inputs.
use api_neutra_v.Prelude.{ℕ, suc, ◌≡◌, refl, String, Option, none, some, List, [], ◌∷◌, map, arith}
use api_neutra_v.Prelude.Int.{pos, ◌<ℤ◌, ◌+ℤ◌, ◌-ℤ◌}
use api_neutra_v.Runtime.{ok, UseCaseResult, success_of}
use api_neutra_v.Runtime.Number.{decimal}
use api_neutra_v.Shop.Entity.{
  FullItem, Cart, Order, OrderCreateData, OrderStatus, pendiente, enviado, order_status_text,
}
use api_neutra_v.Shop.Cart.{line_of, get_cart, clear_cart, add_to_cart}
use api_neutra_v.Shop.Order.{
  order_data, deduct, take_line, settle, cart_lines, create_order, change_order_status,
}
use api_neutra_v.Shop.Stock.{HasStock, ordered, less, deduct_lem}
use api_neutra_v.Shop.Checkout.{IsCartOf, create_order_sells}
use api_neutra_v.Shop.Amounts.{IsAdded, new_total, add_to_cart-IsAdded}
use api_neutra_v.Shop.Progress.{rank, change_order_status-next}
use api_neutra_v.Shop.Prisma.Products.{
  ProductRow, to_product, find_by_id, update, product_repository-HasStock,
}
use api_neutra_v.Shop.Prisma.Orders
use api_neutra_v.Shop.Prisma.Orders.{
  OrderRow, OrderRowCreate, OrderClient, order_repository, to_order, create, sum_items,
}
use api_neutra_v.Tests.Mugs.{
  Table, product_client, table, product_client-IsProductClient, mug, mug_line, cart_with, carts,
  row_of, paid_order, order_client, coupons, products, orders, stock_of_t1, t1_HasStock, silent,
  three_mugs, LeavesStock-mugs,
}

abbrev mug_order : Order ℕ
mug_order = to_order (
    row_of (record {
      user_id = "u1";
      tenant_id = "t1";
      status = pendiente;
      coupon_id = some "k1";
      subtotal = 150000;
      total = 150000;
      discount_amount = 0;
      items = [];
    }))

abbrev mug_result : UseCaseResult (Order ℕ)
mug_result = success_of (some mug_order) "Se ha generado su orden"

abbrev seven : ProductRow ℕ
seven = record mug { stock = pos 7 }

-- The coupon is counted as used, and takes nothing off the total.
placed :
    create_order decimal
      (carts three_mugs)
      products
      orders
      coupons
      silent
      "t1"
      "u1"
      (some "k1")
      (mug ∷ [])
    ≡ (ok mug_result, seven ∷ [])
unfolding create_order cart_lines settle deduct take_line get_cart clear_cart create find_by_id
    update ◌-ℤ◌
placed = refl

create_order_sells_example :
    (cart : Cart (FullItem ℕ)) × IsCartOf decimal
      (carts three_mugs)
      products
      orders
      coupons
      "t1"
      "u1"
      (mug ∷ [])
      cart
    × (order : Order ℕ) × ((orders.create "t1"
          (order_data "u1" (some "k1") (map line_of cart.items))
          (mug ∷ [])).0
        ≡ ok order)
    × (mug_result.value ≡ some order)
    × ((k : String)
        → stock_of_t1 k (seven ∷ [])
          ≡ less (stock_of_t1 k (mug ∷ [])) (ordered k (map line_of cart.items)))
create_order_sells_example =
    create_order_sells decimal (carts three_mugs) products orders coupons "t1" silent stock_of_t1
      t1_HasStock LeavesStock-mugs "u1" (some "k1") (mug ∷ []) (seven ∷ []) mug_result placed

abbrev items_of : Option (Cart (FullItem ℕ)) → List (FullItem ℕ)
items_of none = []
items_of (some cart) = cart.items

deduct_lem_example :
    (s' : Table) × (deduct decimal
        (carts three_mugs)
        products
        orders
        coupons
        "t1"
        (map line_of three_mugs)
        (mug ∷ [])
      ≡ (ok tt, s'))
    × ((k : String)
        → stock_of_t1 k s' ≡ less (stock_of_t1 k (mug ∷ [])) (ordered k (map line_of three_mugs)))
deduct_lem_example =
    deduct_lem decimal (carts three_mugs) products orders coupons "t1" stock_of_t1 t1_HasStock
      (map line_of three_mugs) (mug ∷ [])

product_repository-HasStock_example : HasStock products "t1" stock_of_t1
product_repository-HasStock_example =
    product_repository-HasStock product_client table product_client-IsProductClient "t1" refl

added :
    add_to_cart decimal (carts three_mugs) products "t1" "u1" "p1" (pos 4) (mug ∷ [])
    ≡ (ok (success_of (some (pos 7)) "Updated quantity to  items"), mug ∷ [])
unfolding add_to_cart find_by_id ◌+ℤ◌
added = refl

add_to_cart-IsAdded_example :
    IsAdded decimal
      (carts three_mugs)
      products
      "t1"
      "u1"
      "p1"
      (pos 4)
      (mug ∷ [])
      (success_of (some (pos 7)) "Updated quantity to  items")
add_to_cart-IsAdded_example =
    add_to_cart-IsAdded decimal (carts three_mugs) products "t1" "u1" "p1" (pos 4) (mug ∷ [])
      (mug ∷ []) (success_of (some (pos 7)) "Updated quantity to  items") added

known_mug : products.find_by_id "t1" "p1" (mug ∷ []) ≡ ok (some (to_product mug))
unfolding find_by_id
known_mug = refl

too_many :
    pos 10
    <ℤ new_total decimal (carts three_mugs) products (cart_with (mug_line.item ∷ [])) "p1" (pos 8)
unfolding ◌+ℤ◌
too_many = ground arith

found_paid : orders.find_by_id "t1" "o1" [] ≡ ok (some (to_order paid_order))
unfolding Orders.find_by_id
found_paid = refl

abbrev sent : UseCaseResult (Order ℕ)
sent = success_of (some (to_order (record paid_order { status = enviado }))) "Order status updated"

shipped :
    change_order_status decimal (carts []) products orders coupons "t1" "o1" "ENVIADO" []
    ≡ (ok sent, [])
unfolding change_order_status Orders.find_by_id Orders.update_status
shipped = refl

change_order_status-next_example :
    (status : OrderStatus) × (order_status_text status ≡ "ENVIADO")
    × (o : Order ℕ) × (orders.find_by_id "t1" "o1" [] ≡ ok (some o))
    × (rank status ≡ suc (rank o.status))
    × (u : Order ℕ) × ((orders.update_status "t1" "o1" status []).0 ≡ ok u)
    × (sent.value ≡ some u)
change_order_status-next_example =
    change_order_status-next decimal (carts []) products orders coupons "t1" "o1" "ENVIADO" [] []
      sent shipped

abbrev mug_data : OrderCreateData ℕ
mug_data = order_data "u1" (some "k1") (map line_of three_mugs)

created : create decimal order_client "t1" mug_data [] ≡ (ok mug_order, [])
unfolding create
created = refl
