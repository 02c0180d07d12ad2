-- ===== src/Shop/Prisma/Carts.antt =====
-- infrastructure/database/prisma/cart.prisma-repository.ts, and what it does to the items.
use mathlib.Core.Option
use api_neutra_v.Prelude.{ℕ, String, Option, map, is_some, ◌==◌, not}
use api_neutra_v.Prelude.Int.{ℤ}
use api_neutra_v.Errors.{entity_not_found_error}
use api_neutra_v.Runtime.{Result, Action, ◌>>=◌, ◌>>◌, query, throw_if, returns, ask}
use api_neutra_v.Shop.Entity.{CartProduct, CartItem, FullItem, Cart, CartRepository}

pub record CartItemRow : Type 0 where
  pub id : String
  pub cart_id : String
  pub product_id : String
  pub amount : ℤ

-- The product of an item, of which the mapper keeps some columns.
pub record CartProductRow (N : Type 0) : Type 0 where
  pub id : String
  pub name : String
  pub description : String
  pub price : N
  pub image : Option String
  pub stock : ℤ

pub record CartClient (DB N : Type 0) : Type 0 where
  pub find_with_products : String → DB → Result (Option (Cart (CartItemRow × CartProductRow N)))
  pub find_simple : String → DB → Result (Option (Cart CartItemRow))
  pub find_user : String → DB → Result (Option String)
  pub create_cart : String → Action DB (Cart CartItemRow)
  pub count_carts : String → DB → Result ℕ
  pub create_item : String → String → ℤ → Action DB CartItemRow
  pub update_item : String → String → ℤ → Action DB CartItemRow
  pub delete_item : String → String → Action DB CartItemRow
  pub delete_items : String → Action DB (Unit {0})

abbrev pub map_product : {N : Type 0} → CartProductRow N → CartProduct N
map_product p = record {
  id = p.id;
  name = p.name;
  price = p.price;
  image = p.image;
  stock = p.stock;
}

abbrev pub map_cart_item : CartItemRow → CartItem
map_cart_item r = record {
  id = r.id;
  cart_id = r.cart_id;
  product_id = r.product_id;
  amount = r.amount;
}

abbrev pub full_item : {N : Type 0} → CartItemRow × CartProductRow N → FullItem N
full_item (r, p) = record { item = map_cart_item r; product = map_product p }

abbrev pub with_items : {I J : Type 0} → (I → J) → Cart I → Cart J
with_items f c = record {
  id = c.id;
  user_id = c.user_id;
  items = map f c.items;
  created_at = c.created_at;
  updated_at = c.updated_at;
}

module _ {DB N : Type 0} (client : CartClient DB N) where
  abbrev pub validate_cart_tenant : String → Action DB (Unit {0})
  validate_cart_tenant cart = do
    count ← query (client.count_carts cart)
    throw_if (count == 0) (entity_not_found_error "Cart" cart)

  unfoldable pub find_by_user_id : String → String → DB → Result (Option (Cart (FullItem N)))
  find_by_user_id tenant user db =
      ask (Option.map (with_items full_item)) (client.find_with_products user db)

  unfoldable pub find_by_user_id_simple : String → String → DB → Result (Option (Cart CartItem))
  find_by_user_id_simple tenant user db =
      ask (Option.map (with_items map_cart_item)) (client.find_simple user db)

  unfoldable pub create : String → String → Action DB (Cart CartItem)
  create tenant user = do
    found ← query (client.find_user user)
    throw_if (not (is_some found)) (entity_not_found_error "User" user)
    returns (with_items map_cart_item) (client.create_cart user)

  unfoldable pub add_item : String → String → String → ℤ → Action DB CartItem
  add_item tenant cart product amount = do
    validate_cart_tenant cart
    returns map_cart_item (client.create_item cart product amount)

  unfoldable pub remove_item : String → String → String → Action DB (Unit {0})
  remove_item tenant cart product = do
    validate_cart_tenant cart
    returns (λ _. tt) (client.delete_item cart product)

  unfoldable pub update_item_amount : String → String → String → ℤ → Action DB CartItem
  update_item_amount tenant cart product amount = do
    validate_cart_tenant cart
    returns map_cart_item (client.update_item cart product amount)

  unfoldable pub clear_items : String → String → Action DB (Unit {0})
  clear_items tenant cart = do validate_cart_tenant cart; client.delete_items cart

  abbrev pub cart_repository : CartRepository DB N
  cart_repository = record {
    find_by_user_id = find_by_user_id;
    find_by_user_id_simple = find_by_user_id_simple;
    create = create;
    add_item = add_item;
    remove_item = remove_item;
    update_item_amount = update_item_amount;
    clear_items = clear_items;
  }
