-- ===== src/Shop/Prisma/Orders.antt =====
-- infrastructure/database/prisma/order.prisma-repository.ts: creation, lookup and updates.
use mathlib.Core.Option
use api_neutra_v.Prelude.{Bool, ◌&&◌, String, Option, none, some, List, [], ◌∷◌, str_eq}
use api_neutra_v.Errors.{not_found_handler}
use api_neutra_v.Runtime.{Result, Action, rethrow, returns, ask}
use api_neutra_v.Runtime.Number.{Number}
use api_neutra_v.Shop.Entity.{
  OrderStatus, pendiente, Order, OrderItem, OrderItemData, OrderCreateData, OrderUpdateData,
  OrderRepository,
}

pub record OrderRow (N : Type 0) : Type 0 where
  pub id : String
  pub tenant_id : String
  pub user_id : String
  pub status : OrderStatus
  pub tracking_number : Option String
  pub subtotal : N
  pub total : N
  pub discount_amount : N
  pub coupon_id : Option String
  pub items : List (OrderItem N)

pub record OrderRowCreate (N : Type 0) : Type 0 where
  pub user_id : String
  pub tenant_id : String
  pub status : OrderStatus
  pub coupon_id : Option String
  pub subtotal : N
  pub total : N
  pub discount_amount : N
  pub items : List (OrderItemData N)

pub record OrderClient (DB N : Type 0) : Type 0 where
  pub find_first : (OrderRow N → Bool) → DB → Result (Option (OrderRow N))
  pub create : OrderRowCreate N → Action DB (OrderRow N)
  pub update : String → String → OrderUpdateData → Action DB (OrderRow N)

abbrev pub to_order : {N : Type 0} → OrderRow N → Order N
to_order r = record {
  id = r.id;
  user_id = r.user_id;
  status = r.status;
  items = r.items;
  subtotal = r.subtotal;
  total = r.total;
  discount_amount = r.discount_amount;
  coupon_id = r.coupon_id;
  tracking_number = r.tracking_number;
}

module _ {DB N : Type 0} (num : Number N) (client : OrderClient DB N) where
  -- `items.reduce((sum, item) => sum + item.price * item.amount, sum)`
  abbrev pub sum_items : N → List (OrderItemData N) → N
  sum_items sum [] = sum
  sum_items sum (i ∷ items) = sum_items (num.add sum (num.mul i.price (num.of_int i.amount))) items

  abbrev pub new_order : String → OrderCreateData N → OrderRowCreate N
  new_order tenant d =
      let subtotal = sum_items num.nought d.items in
      record {
        user_id = d.user_id;
        tenant_id = tenant;
        status = pendiente;
        coupon_id = d.coupon_id;
        subtotal = subtotal;
        total = num.sub subtotal num.nought;
        discount_amount = num.nought;
        items = d.items;
      }

  unfoldable pub create : String → OrderCreateData N → Action DB (Order N)
  create tenant d = returns to_order (client.create (new_order tenant d))

  unfoldable pub find_by_id : String → String → DB → Result (Option (Order N))
  find_by_id tenant id db =
      ask (Option.map to_order)
        (client.find_first (λ r. str_eq r.id id && str_eq r.tenant_id tenant) db)

  unfoldable pub update : String → String → OrderUpdateData → Action DB (Order N)
  update tenant id d =
      rethrow (not_found_handler "Order" id) (returns to_order (client.update id tenant d))

  unfoldable pub update_status : String → String → OrderStatus → Action DB (Order N)
  update_status tenant id status = rethrow (not_found_handler "Order" id) (
      returns to_order
        (client.update id tenant (record { status = some status; tracking_number = none })))

  abbrev pub order_repository : OrderRepository DB N
  order_repository = record {
    create = create;
    find_by_id = find_by_id;
    update_status = update_status;
    update = update;
  }
