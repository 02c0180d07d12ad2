-- ===== src/Tests/Carts.antt =====
-- Carts as a list of items in memory, and what is put into them.
use api_neutra_v.Prelude.{
  ℕ, ◌≡◌, refl, ap, sym, subst, inl, inr, true, ◌&&◌, String, Option, none, some, List, [], ◌∷◌,
  find, filter, str_eq, str_eq_iff, if◌then◌else◌, Bool-cases, arith,
}
use api_neutra_v.Prelude.Int.{ℤ, pos, ◌+ℤ◌}
use api_neutra_v.Errors.{prisma}
use api_neutra_v.Runtime.{ok, err, Action, UseCaseResult, success_of}
use api_neutra_v.Runtime.Number.{decimal}
use api_neutra_v.Shop.Entity.{Cart, Product, ProductRepository}
use api_neutra_v.Shop.Cart.{add_to_cart}
use api_neutra_v.Shop.Contents.{amount, HasAmounts, IsCartClient, cart_repository-HasAmounts}
use api_neutra_v.Shop.Prisma.Carts.{
  CartClient, CartItemRow, cart_repository, map_cart_item, with_items, find_by_user_id_simple,
  update_item_amount,
}

abbrev Items : Type 0
Items = List CartItemRow

-- The first row of the list with the key.
abbrev at : String → String → Items → Option CartItemRow
at cart id [] = none
at cart id (r ∷ rows) =
    let rest = at cart id rows in
    if str_eq r.cart_id cart && str_eq r.product_id id then some r else rest

abbrev cart_of : Items → Cart CartItemRow
cart_of rows = record {
  id = "c1";
  user_id = "u1";
  items = filter (λ r. str_eq r.cart_id "c1") rows;
  created_at = pos 0;
  updated_at = pos 0;
}

abbrev put : String → String → ℤ → Action Items CartItemRow
put cart id a rows =
    let row : CartItemRow = record { id = "i1"; cart_id = cart; product_id = id; amount = a } in
    (ok row, row ∷ rows)

abbrev client : CartClient Items ℕ
client = record {
  find_with_products = λ user db. ok none;
  find_simple = λ user db. ok (some (cart_of db));
  find_user = λ user db. ok (some user);
  create_cart = λ user db. (ok (cart_of db), db);
  count_carts = λ cart db. ok 1;
  create_item = put;
  update_item = put;
  delete_item = λ cart id db. (err (prisma "P2025" none ""), db);
  delete_items = λ cart db. (ok tt, []);
}

put-row :
    (cart id : String) (a : ℤ) (r : CartItemRow) (db db' : Items)
    → put cart id a db ≡ (ok r, db')
    → (r.amount ≡ a)
      × (at cart id db' ≡ some r)
      × ((c k : String) → ¬ ((c ≡ cart) × (k ≡ id)) → at c k db' ≡ at c k db)
put-row cart id a r db db' made =
    let row : CartItemRow = record { id = "i1"; cart_id = cart; product_id = id; amount = a } in
    let same : row ≡ r = ground (arith, made) in
    let after : row ∷ db ≡ db' = ground (arith, made) in
    (
      ap (λ x. x.amount) (sym same),
      subst (λ x. at cart id x ≡ some r) after
          (subst (λ x. at cart id (row ∷ db) ≡ some x) same
            (rw ((str_eq_iff cart cart).1 refl, (str_eq_iff id id).1 refl) refl)),
      λ c k apart.
          subst (λ x. at c k x ≡ at c k db) after
            (elim (Bool-cases (str_eq cart c)) [
              | inr e ↦ rw e refl
              | inl e ↦ elim (Bool-cases (str_eq id k)) [
                | inr f ↦ rw (e, f) refl
                | inl f ↦
                    absurd (apart (sym ((str_eq_iff cart c).0 e), sym ((str_eq_iff id k).0 f)))
              ]
            ]),
    )

items_lem :
    (id : String) (db : Items)
    → find (λ r. str_eq r.product_id id) (filter (λ r. str_eq r.cart_id "c1") db) ≡ at "c1" id db
items_lem id [] = refl
items_lem id (r ∷ rows) = elim (Bool-cases (str_eq r.cart_id "c1")) [
  | inr e ↦ rw e (items_lem id rows)
  | inl e ↦ elim (Bool-cases (str_eq r.product_id id)) [
    | inr f ↦ rw (e, f) (items_lem id rows)
    | inl f ↦ rw (e, f) refl
  ]
]

client-IsCartClient : IsCartClient client at
client-IsCartClient = record {
  find_lem = λ user id cart db found.
      subst {A = Cart CartItemRow} (λ c. find (λ r. str_eq r.product_id id) c.items ≡ at c.id id db)
        {x = cart_of db} {y = cart} (ground (arith, found)) (items_lem id db);
  create_lem = put-row;
  update_lem = put-row;
}

cart_repository-HasAmounts_example :
    HasAmounts (cart_repository client) (amount client at client-IsCartClient)
cart_repository-HasAmounts_example = cart_repository-HasAmounts client at client-IsCartClient

abbrev tea : Product ℕ
tea = record {
  id = "p1";
  name = "Tea";
  description = "";
  image = none;
  price = 30000;
  stock = pos 9;
  active = true;
  owner_id = "u9";
}

abbrev products : ProductRepository Items ℕ
products = record {
  find_by_id = λ tenant id db. ok (some tea);
  update = λ tenant id d db. (ok tea, db);
}

abbrev two_teas : Items
two_teas = record { id = "i1"; cart_id = "c1"; product_id = "p1"; amount = pos 2 } ∷ []

abbrev five_teas : Items
five_teas = record { id = "i1"; cart_id = "c1"; product_id = "p1"; amount = pos 5 } ∷ two_teas

abbrev updated : UseCaseResult ℤ
updated = success_of (some (pos 5)) "Updated quantity to  items"

found :
    find_by_user_id_simple client "t1" "u1" two_teas
    ≡ ok (some (with_items map_cart_item (cart_of two_teas)))
unfolding find_by_user_id_simple
found = refl

added :
    add_to_cart decimal (cart_repository client) products "t1" "u1" "p1" (pos 3) two_teas
    ≡ (ok updated, five_teas)
unfolding add_to_cart find_by_user_id_simple update_item_amount ◌+ℤ◌
added = refl
