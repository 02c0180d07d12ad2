-- ===== src/Tests/Mugs.antt =====
-- A shop in memory: a table of products, carts and orders. It meets what is assumed of a shop.
use api_neutra_v.Prelude.{
  ℕ, refl, ap, true, String, Option, none, some, List, [], ◌∷◌, find, map, or_default,
  if◌then◌else◌,
}
use api_neutra_v.Prelude.Int.{ℤ, pos}
use api_neutra_v.Errors.{prisma}
use api_neutra_v.Runtime.{ok, err, Action}
use api_neutra_v.Runtime.Number.{decimal}
use api_neutra_v.Coupon.{CouponRepository}
use api_neutra_v.Shop.Entity.{
  FullItem, Cart, CartRepository, ProductRepository, OrderRepository, Order, pagado,
  UpdateProductData,
}
use api_neutra_v.Shop.Stock.{HasStock}
use api_neutra_v.Shop.Checkout.{LeavesStock}
use api_neutra_v.Shop.Prisma.Products.{
  ProductRow, ProductClient, IsProductClient, is_product, product_repository, stock,
  product_repository-HasStock,
}
use api_neutra_v.Shop.Prisma.Orders.{
  OrderRow, OrderRowCreate, OrderClient, order_repository, create,
}

abbrev pub Table : Type 0
Table = List (ProductRow ℕ)

abbrev pub changed : UpdateProductData ℕ → ProductRow ℕ → ProductRow ℕ
changed d r = record r { stock = or_default d.stock r.stock }

abbrev pub put :
    String → String → UpdateProductData ℕ → Option (ProductRow ℕ) → Action Table (ProductRow ℕ)
put id tenant d none db = (err (prisma "P2025" none "Record to update not found."), db)
put id tenant d (some old) db =
    let r = record (changed d old) { id = id; tenant_id = tenant } in
    (ok r, map (λ x. if is_product id tenant x then r else x) db)

abbrev pub product_client : ProductClient Table ℕ
product_client = record {
  find_first = λ p db. ok (find p db);
  update = λ id tenant d db. put id tenant d (find (is_product id tenant) db) db;
}

abbrev pub table : Table → Table
table db = db

pub product_client-IsProductClient : IsProductClient product_client table
product_client-IsProductClient = record {
  find_lem = λ p db. refl;
  update_lem = λ id tenant d db old there.
      let r = record (changed d old) { id = id; tenant_id = tenant } in
      (
        r,
        map (λ x. if is_product id tenant x then r else x) db,
        ap (λ o. put id tenant d o db) there,
        refl,
        refl,
        refl,
        refl,
      );
}

abbrev pub mug : ProductRow ℕ
mug = record {
  tenant_id = "t1";
  id = "p1";
  name = "Mug";
  description = "";
  image = none;
  price = 50000;
  stock = pos 10;
  active = true;
  owner_id = "u9";
}

abbrev pub mug_line : FullItem ℕ
mug_line = record {
  item = record { id = "i1"; cart_id = "c1"; product_id = "p1"; amount = pos 3 };
  product = record { id = "p1"; name = "Mug"; price = 50000; image = none; stock = pos 10 };
}

abbrev pub cart_with : {I : Type 0} → List I → Cart I
cart_with items = record {
  id = "c1";
  user_id = "u1";
  items = items;
  created_at = pos 0;
  updated_at = pos 0;
}

abbrev pub carts : List (FullItem ℕ) → CartRepository Table ℕ
carts items = record {
  find_by_user_id = λ tenant user db. ok (some (cart_with items));
  find_by_user_id_simple = λ tenant user db. ok (some (cart_with (map (λ i. i.item) items)));
  create = λ tenant user db. (ok (cart_with []), db);
  add_item = λ tenant cart product amount db.
      (ok (record { id = "i2"; cart_id = cart; product_id = product; amount = amount }), db);
  remove_item = λ tenant cart product db. (ok tt, db);
  update_item_amount = λ tenant cart product amount db.
      (ok (record { id = "i1"; cart_id = cart; product_id = product; amount = amount }), db);
  clear_items = λ tenant cart db. (ok tt, db);
}

abbrev pub row_of : OrderRowCreate ℕ → OrderRow ℕ
row_of d = record {
  id = "o1";
  tenant_id = d.tenant_id;
  user_id = d.user_id;
  status = d.status;
  tracking_number = none;
  subtotal = d.subtotal;
  total = d.total;
  discount_amount = d.discount_amount;
  coupon_id = d.coupon_id;
  items = [];
}

abbrev pub paid_order : OrderRow ℕ
paid_order = record {
  id = "o1";
  tenant_id = "t1";
  user_id = "u1";
  status = pagado;
  tracking_number = none;
  subtotal = 150000;
  total = 150000;
  discount_amount = 0;
  coupon_id = none;
  items = [];
}

abbrev pub order_client : OrderClient Table ℕ
order_client = record {
  find_first = λ p db. ok (find p (paid_order ∷ []));
  create = λ d db. (ok (row_of d), db);
  update = λ id tenant d db. (ok (record paid_order { status = or_default d.status pagado }), db);
}

abbrev pub coupons : CouponRepository Table ℕ
coupons = record {
  find_by_code = λ tenant code db. ok none;
  create = λ tenant d db. (err (prisma "P2025" none ""), db);
  increment_usage = λ tenant id db. (ok tt, db);
}

abbrev pub products : ProductRepository Table ℕ
products = product_repository product_client

abbrev pub orders : OrderRepository Table ℕ
orders = order_repository decimal order_client

abbrev pub stock_of_t1 : String → Table → Option ℤ
stock_of_t1 = stock product_client table product_client-IsProductClient "t1" refl

abbrev pub t1_HasStock : HasStock products "t1" stock_of_t1
t1_HasStock =
    product_repository-HasStock product_client table product_client-IsProductClient "t1" refl

abbrev pub silent : String → String → Order ℕ → Table → Table
silent tenant user o db = db

abbrev pub three_mugs : List (FullItem ℕ)
three_mugs = mug_line ∷ []

pub LeavesStock-mugs : LeavesStock (carts three_mugs) orders coupons silent stock_of_t1
unfolding create
LeavesStock-mugs = record {
  create_lem = λ tenant d s k. refl;
  increment_lem = λ tenant id s k. refl;
  clear_lem = λ tenant id s k. refl;
  confirm_lem = λ tenant user o s k. refl;
}
