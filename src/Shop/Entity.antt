-- ===== src/Shop/Entity.antt =====
-- core/entities/product.entity.ts, cart.entity.ts and order.entity.ts, and the interfaces of
-- core/repositories that the use cases of the cart and of the orders call.
use api_neutra_v.Prelude.{Bool, true, false, String, Option, List}
use api_neutra_v.Prelude.Int.{ℤ}
use api_neutra_v.Runtime.{Time, Action, Result}

pub record Product (N : Type 0) : Type 0 where
  pub id : String
  pub name : String
  pub description : String
  pub image : Option String
  pub price : N
  pub stock : ℤ
  pub active : Bool
  pub owner_id : String

-- `Pick<Product, "id" | "name" | "price" | "image" | "stock">`
pub record CartProduct (N : Type 0) : Type 0 where
  pub id : String
  pub name : String
  pub price : N
  pub image : Option String
  pub stock : ℤ

pub record CartItem : Type 0 where
  pub id : String
  pub cart_id : String
  pub product_id : String
  pub amount : ℤ

-- An item with its product, which the query of `findByUserId` includes. The relation is required.
pub record FullItem (N : Type 0) : Type 0 where
  pub item : CartItem
  pub product : CartProduct N

-- A cart whose items are plain or carry their products.
pub record Cart (I : Type 0) : Type 0 where
  pub id : String
  pub user_id : String
  pub items : List I
  pub created_at : Time
  pub updated_at : Time

pub data OrderStatus : Type 0 where
  pendiente pagado enviado entregado : OrderStatus

pub record OrderItem (N : Type 0) : Type 0 where
  pub id : String
  pub order_id : String
  pub product_id : String
  pub amount : ℤ
  pub price : N

pub record Order (N : Type 0) : Type 0 where
  pub id : String
  pub user_id : String
  pub status : OrderStatus
  pub items : List (OrderItem N)
  pub subtotal : N
  pub total : N
  pub discount_amount : N
  pub coupon_id : Option String
  pub tracking_number : Option String

abbrev pub order_status_text : OrderStatus → String
order_status_text pendiente = "PENDIENTE"
order_status_text pagado = "PAGADO"
order_status_text enviado = "ENVIADO"
order_status_text entregado = "ENTREGADO"

-- The table of `canTransitionTo`.
abbrev pub can_transition_to : OrderStatus → OrderStatus → Bool
can_transition_to pendiente pagado = true
can_transition_to pagado enviado = true
can_transition_to enviado entregado = true
can_transition_to _ _ = false

abbrev paid : OrderStatus → Bool
paid pendiente = false
paid _ = true

abbrev pub is_paid : {N : Type 0} → Order N → Bool
is_paid o = paid o.status

pub record OrderItemData (N : Type 0) : Type 0 where
  pub product_id : String
  pub amount : ℤ
  pub price : N

pub record OrderCreateData (N : Type 0) : Type 0 where
  pub user_id : String
  pub items : List (OrderItemData N)
  pub coupon_id : Option String

pub record OrderUpdateData : Type 0 where
  pub status : Option OrderStatus
  pub tracking_number : Option String

-- The fields of `UpdateProductData` that the modelled callers give.
pub record UpdateProductData (N : Type 0) : Type 0 where
  pub name : Option String
  pub price : Option N
  pub description : Option String
  pub image : Option String
  pub stock : Option ℤ
  pub active : Option Bool

pub record CartRepository (S N : Type 0) : Type 0 where
  pub find_by_user_id : String → String → S → Result (Option (Cart (FullItem N)))
  pub find_by_user_id_simple : String → String → S → Result (Option (Cart CartItem))
  pub create : String → String → Action S (Cart CartItem)
  pub add_item : String → String → String → ℤ → Action S CartItem
  pub remove_item : String → String → String → Action S (Unit {0})
  pub update_item_amount : String → String → String → ℤ → Action S CartItem
  pub clear_items : String → String → Action S (Unit {0})

pub record ProductRepository (S N : Type 0) : Type 0 where
  pub find_by_id : String → String → S → Result (Option (Product N))
  pub update : String → String → UpdateProductData N → Action S (Product N)

pub record OrderRepository (S N : Type 0) : Type 0 where
  pub create : String → OrderCreateData N → Action S (Order N)
  pub find_by_id : String → String → S → Result (Option (Order N))
  pub update_status : String → String → OrderStatus → Action S (Order N)
  pub update : String → String → OrderUpdateData → Action S (Order N)
