-- ===== src/Shop/Prisma/Products.antt =====
-- infrastructure/database/prisma/product.prisma-repository.ts: the lookup and the update.
use mathlib.Core.Option
use api_neutra_v.Prelude.{
  Bool, true, false, ◌&&◌, ◌≡◌, refl, ap, ◌∙◌, inl, inr, String, Option, some, List, [], ◌∷◌, find,
  find_kept, map, str_eq, str_eq_iff, truthy, or_default, if◌then◌else◌, Bool-cases, Option-cases,
  arith,
}
use api_neutra_v.Prelude.Int.{ℤ}
use api_neutra_v.Errors.{not_found_handler}
use api_neutra_v.Runtime.{Result, ok, Action, rethrow, returns, ask}
use api_neutra_v.Shop.Entity.{Product, UpdateProductData, ProductRepository}
use api_neutra_v.Shop.Order.{only_stock}
use api_neutra_v.Shop.Stock.{HasStock, stock_of}

pub record ProductRow (N : Type 0) : Type 0 where
  pub tenant_id : String
  pub id : String
  pub name : String
  pub description : String
  pub image : Option String
  pub price : N
  pub stock : ℤ
  pub active : Bool
  pub owner_id : String

pub record ProductClient (DB N : Type 0) : Type 0 where
  pub find_first : (ProductRow N → Bool) → DB → Result (Option (ProductRow N))
  pub update : String → String → UpdateProductData N → Action DB (ProductRow N)

abbrev pub is_product : {N : Type 0} → String → String → ProductRow N → Bool
is_product id tenant r = str_eq r.id id && str_eq r.tenant_id tenant

-- `where: { id, ...(tenantId && { tenantId }) }`
abbrev pub product_where : {N : Type 0} → String → String → ProductRow N → Bool
product_where tenant id r =
    str_eq r.id id && (if truthy tenant then str_eq r.tenant_id tenant else true)

abbrev pub to_product : {N : Type 0} → ProductRow N → Product N
to_product r = record {
  id = r.id;
  name = r.name;
  description = r.description;
  image = r.image;
  price = r.price;
  stock = r.stock;
  active = r.active;
  owner_id = r.owner_id;
}

module _ {DB N : Type 0} (client : ProductClient DB N) where
  unfoldable pub find_by_id : String → String → DB → Result (Option (Product N))
  find_by_id tenant id db =
      ask (Option.map to_product) (client.find_first (product_where tenant id) db)

  unfoldable pub update : String → String → UpdateProductData N → Action DB (Product N)
  update tenant id d =
      rethrow (not_found_handler "Product" id) (returns to_product (client.update id tenant d))

  abbrev pub product_repository : ProductRepository DB N
  product_repository = record { find_by_id = find_by_id; update = update }

-- The documented behaviour of the client: `rows` reads the table off the database.
pub record IsProductClient {DB N : Type 0} (client : ProductClient DB N)
    (rows : DB → List (ProductRow N)) : Type 0 where
  pub find_lem :
      (p : ProductRow N → Bool) (db : DB) → client.find_first p db ≡ ok (find p (rows db))
  pub update_lem :
      (id tenant : String) (d : UpdateProductData N) (db : DB) (old : ProductRow N)
      → find (is_product id tenant) (rows db) ≡ some old
      → (r : ProductRow N) × (db' : DB) × (client.update id tenant d db ≡ (ok r, db'))
        × (r.id ≡ id)
        × (r.tenant_id ≡ tenant)
        × (r.stock ≡ or_default d.stock old.stock)
        × (rows db' ≡ map (λ x. if is_product id tenant x then r else x) (rows db))

find_replaced :
    {A : Type 0} (p : A → Bool) (r : A) (xs : List A) (old : A)
    → p r ≡ true
    → find p xs ≡ some old
    → find p (map (λ x. if p x then r else x) xs) ≡ some r
find_replaced p r [] old h found = absurd (ground (arith, found))
find_replaced p r (x ∷ xs) old h found = elim (Bool-cases (p x)) [
  | inl e ↦ rw (e, h) refl
  | inr e ↦ rw (e, e) (find_replaced p r xs old h (ground (arith, e, found)))
]

str_eq_refl : (s : String) → str_eq s s ≡ true
str_eq_refl s = (str_eq_iff s s).1 refl

str_eq_apart : (s t u : String) → str_eq s t ≡ false → u ≡ t → str_eq u s ≡ false
str_eq_apart s t u h e = elim (Bool-cases (str_eq u s)) [
  | inl same ↦ absurd (ground (arith, h, str_eq_refl s, e, (str_eq_iff u s).0 same))
  | inr apart ↦ apart
]

is_product_refl :
    {N : Type 0} (id tenant : String) (r : ProductRow N)
    → r.id ≡ id
    → r.tenant_id ≡ tenant
    → is_product id tenant r ≡ true
is_product_refl id tenant r h k = rw (h, k, str_eq_refl id) (str_eq_refl tenant)

is_product_apart :
    {N : Type 0} (id k tenant : String) (r : ProductRow N)
    → str_eq k id ≡ false
    → r.id ≡ id
    → is_product k tenant r ≡ false
is_product_apart id k tenant r h e = rw (str_eq_apart k id r.id h e) refl

is_product_id :
    {N : Type 0} (id tenant : String) (r : ProductRow N) → is_product id tenant r ≡ true → r.id ≡ id
is_product_id id tenant r h = elim (Bool-cases (str_eq r.id id)) [
  | inl e ↦ (str_eq_iff r.id id).0 e
  | inr e ↦ absurd (ground (arith, h, e))
]

module _ {DB N : Type 0} (client : ProductClient DB N) (rows : DB → List (ProductRow N))
    (laws : IsProductClient client rows) (tenant : String) (named : truthy tenant ≡ true) where
  abbrev pub stock : String → DB → Option ℤ
  stock id db = stock_of (Option.map to_product (find (is_product id tenant) (rows db)))

  found_by_id :
      (id : String) (db : DB)
      → find_by_id client tenant id db
        ≡ ok (Option.map to_product (find (is_product id tenant) (rows db)))
  unfolding find_by_id
  found_by_id id db =
      ap
        (λ b. ask (Option.map to_product) (
          client.find_first (λ r. str_eq r.id id && (if b then str_eq r.tenant_id tenant else true))
            db))
        named
      ∙ ap (ask (Option.map to_product)) (laws.find_lem (is_product id tenant) db)

  update_returns :
      (id : String) (d : UpdateProductData N) (db : DB) {db' : DB} (r : ProductRow N)
      → client.update id tenant d db ≡ (ok r, db')
      → update client tenant id d db ≡ (ok (to_product r), db')
  unfolding update
  update_returns id d db r h = ground (arith, h)

  module _ (id : String) (n : ℤ) (db db' : DB) (old r : ProductRow N)
      (there : find (is_product id tenant) (rows db) ≡ some old) (of_id : r.id ≡ id)
      (of_tenant : r.tenant_id ≡ tenant) (holds : r.stock ≡ n)
      (table : rows db' ≡ map (λ x. if is_product id tenant x then r else x) (rows db)) where
    abbrev read : String → List (ProductRow N) → Option ℤ
    read k t = stock_of (Option.map to_product (find (is_product k tenant) t))

    stock_written : (k : String) → stock k db' ≡ (if str_eq k id then some n else stock k db)
    stock_written k = elim (Bool-cases (str_eq k id)) [
      | inl e ↦ rw e (
          ap (λ x. stock x db') ((str_eq_iff k id).0 e)
          ∙ ap (read id) table
          ∙ ap (λ o. stock_of (Option.map to_product o))
              (find_replaced (is_product id tenant) r (rows db) old
                (is_product_refl id tenant r of_id of_tenant) there)
          ∙ ap some holds)
      | inr e ↦ rw e (
          ap (read k) table
          ∙ ap (λ o. stock_of (Option.map to_product o))
              (find_kept (is_product id tenant) (is_product k tenant) r (rows db)
                (is_product_apart id k tenant r e of_id)
                (λ x h. is_product_apart id k tenant x e (is_product_id id tenant x h))))
    ]

  -- The Prisma repository keeps the stock of the products as the loop over a cart needs it: a lookup
  -- answers the stock of the tenant's row, and an update of a row that is there changes no other.
  pub product_repository-HasStock : HasStock (product_repository client) tenant stock
  product_repository-HasStock = record {
    find_lem = λ id db.
        (Option.map to_product (find (is_product id tenant) (rows db)), found_by_id id db, refl);
    update_lem = λ id n m db h. elim (Option-cases (find (is_product id tenant) (rows db))) [
      | inl missing ↦ absurd (ground (arith, h, missing))
      | inr (old, there) ↦
          let (r, db', wrote, of_id, of_tenant, holds, table) =
            laws.update_lem id tenant (only_stock n) db old there in
          (
            to_product r,
            db',
            update_returns id (only_stock n) db r wrote,
            stock_written id n db db' old r there of_id of_tenant holds table,
          )
    ];
  }
