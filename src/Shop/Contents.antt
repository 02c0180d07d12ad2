-- ===== src/Shop/Contents.antt =====
-- The amounts in a cart under core/application/cart/add-to-cart.use-case.ts, and
-- infrastructure/database/prisma/cart.prisma-repository.ts, which keeps them.
use api_neutra_v.Prelude.{
  ◌≡◌, refl, ap, sym, subst, ◌∙◌, inl, inr, Option, none, some, String, List, [], ◌∷◌, map, find,
  str_eq, arith, Bool-cases, ◌==◌,
}
use api_neutra_v.Prelude.Int.{ℤ, pos, ◌+ℤ◌, int_laws}
use api_neutra_v.Runtime.{Result, ok, err, Action, ◌>>◌, returns, UseCaseResult, outcome, answer}
use api_neutra_v.Runtime.Number.{Number}
use api_neutra_v.Shop.Entity.{Cart, CartItem, CartRepository, ProductRepository}
use api_neutra_v.Shop.Cart.{existing_item, current_qty, put_item, add_to_cart}
use api_neutra_v.Shop.Prisma.Carts
use api_neutra_v.Shop.Prisma.Carts.{
  CartClient, CartItemRow, cart_repository, map_cart_item, with_items, validate_cart_tenant,
}

-- The store after a call holds the amount for the product of the cart, and the other amounts of
-- before.
abbrev pub Puts :
    {S A : Type 0}
    → (String → String → S → Option ℤ)
    → String
    → String
    → ℤ
    → S
    → Result A × S
    → Type 0
Puts amount cart id a s (err e, s') = Unit
Puts amount cart id a s (ok x, s') =
    (amount cart id s' ≡ some a)
    × ((c k : String) → ¬ ((c ≡ cart) × (k ≡ id)) → amount c k s' ≡ amount c k s)

abbrev pub amount_of : Option CartItem → Option ℤ
amount_of none = none
amount_of (some i) = some i.amount

abbrev pub or_nought : Option ℤ → ℤ
or_nought none = pos 0
or_nought (some a) = a

-- `amount` reads the amount of a product in a cart off the store.
pub record HasAmounts {S N : Type 0} (carts : CartRepository S N)
    (amount : String → String → S → Option ℤ) : Type 0 where
  pub read_lem :
      (tenant user id : String) (cart : Cart CartItem) (s : S)
      → carts.find_by_user_id_simple tenant user s ≡ ok (some cart)
      → amount_of (existing_item id cart.items) ≡ amount cart.id id s
  pub add_lem :
      (tenant cart id : String) (a : ℤ) (s : S)
      → Puts amount cart id a s (carts.add_item tenant cart id a s)
  pub update_lem :
      (tenant cart id : String) (a : ℤ) (s : S)
      → Puts amount cart id a s (carts.update_item_amount tenant cart id a s)

nought_plus : (a : ℤ) → pos 0 +ℤ a ≡ a
nought_plus a = grind int_laws

current_qty_lem : (o : Option CartItem) → current_qty o ≡ or_nought (amount_of o)
current_qty_lem none = refl
current_qty_lem (some i) = refl

module _ {S N : Type 0} (num : Number N) (carts : CartRepository S N)
    (products : ProductRepository S N) (amount : String → String → S → Option ℤ)
    (has : HasAmounts carts amount) where
  put_item-Puts :
      (tenant cart id : String) (o : Option CartItem) (a : ℤ) (s : S)
      → Puts amount cart id
          (current_qty o +ℤ a)
          s
          (put_item num carts tenant cart id o a (current_qty o +ℤ a) s)
  put_item-Puts tenant cart id (some i) a s = has.update_lem tenant cart id (i.amount +ℤ a) s
  put_item-Puts tenant cart id none a s =
      subst (λ t. Puts amount cart id t s (carts.add_item tenant cart id a s)) (sym (nought_plus a))
        (has.add_lem tenant cart id a s)

  -- When `add_to_cart` returns for a user with a cart, the cart holds as much more of the product as
  -- was asked for, and every other amount, of this cart and of the others, is as before.
  pub add_to_cart-Puts :
      (tenant user id : String) (a : ℤ) (s s' : S) (cart : Cart CartItem) (r : UseCaseResult ℤ)
      → carts.find_by_user_id_simple tenant user s ≡ ok (some cart)
      → add_to_cart num carts products tenant user id a s ≡ (ok r, s')
      → Puts amount cart.id id (or_nought (amount cart.id id s) +ℤ a) s (ok r, s')
  unfolding add_to_cart
  add_to_cart-Puts tenant user id a s s' cart r found h =
      let existing = existing_item id cart.items in
      let total = current_qty existing +ℤ a in
      elim (answer (products.find_by_id tenant id s)) [
        | inr (e, failed) ↦ absurd (ground (arith, found, failed, h))
        | inl (none, known) ↦ absurd (ground (arith, found, known, h))
        | inl (some p, known) ↦
            elim (outcome (put_item num carts tenant cart.id id existing a total s)) [
              | inr (e, s₁, failed) ↦ absurd (ground (arith, found, known, failed, h))
              | inl (i, s₁, put) ↦
                  let same : s' ≡ s₁ = ground (arith, found, known, put, h) in
                  let (now, rest) =
                    subst (Puts amount cart.id id total s) put
                      (put_item-Puts tenant cart.id id existing a s) in
                  (
                    ap (amount cart.id id) same
                        ∙ now
                        ∙ ap (λ q. some (q +ℤ a))
                            (current_qty_lem existing
                              ∙ ap or_nought (has.read_lem tenant user id cart s found)),
                    λ c k apart. ap (amount c k) same ∙ rest c k apart,
                  )
            ]
      ]

abbrev row_amount : Option CartItemRow → Option ℤ
row_amount none = none
row_amount (some r) = some r.amount

-- Creating or updating an item answers its row, which the table holds afterwards; the other rows of
-- the table stay.
abbrev Writes :
    {DB : Type 0}
    → (String → String → DB → Option CartItemRow)
    → String
    → String
    → ℤ
    → Action DB CartItemRow
    → Type 0
Writes {DB} rows cart id a call =
    (r : CartItemRow) (db db' : DB)
    → call db ≡ (ok r, db')
    → (r.amount ≡ a)
      × (rows cart id db' ≡ some r)
      × ((c k : String) → ¬ ((c ≡ cart) × (k ≡ id)) → rows c k db' ≡ rows c k db)

-- What the Prisma calls do to the table of the items, as documented, where `rows cart id db` is the
-- table's row with the unique key (cart, product): a cart is found with its rows.
pub record IsCartClient {DB N : Type 0} (client : CartClient DB N)
    (rows : String → String → DB → Option CartItemRow) : Type 0 where
  pub find_lem :
      (user id : String) (cart : Cart CartItemRow) (db : DB)
      → client.find_simple user db ≡ ok (some cart)
      → find (λ r. str_eq r.product_id id) cart.items ≡ rows cart.id id db
  pub create_lem : (cart id : String) (a : ℤ) → Writes rows cart id a (client.create_item cart id a)
  pub update_lem : (cart id : String) (a : ℤ) → Writes rows cart id a (client.update_item cart id a)

-- The item that the mapped rows hold for a product has the amount of the row.
existing_item-map :
    (id : String) (rows : List CartItemRow)
    → amount_of (existing_item id (map map_cart_item rows))
      ≡ row_amount (find (λ r. str_eq r.product_id id) rows)
existing_item-map id [] = refl
existing_item-map id (r ∷ rows) = elim (Bool-cases (str_eq r.product_id id)) [
  | inl e ↦ rw e refl
  | inr e ↦ rw e (existing_item-map id rows)
]

module _ {DB N : Type 0} (client : CartClient DB N)
    (rows : String → String → DB → Option CartItemRow) (laws : IsCartClient client rows) where
  abbrev pub amount : String → String → DB → Option ℤ
  amount cart id db = row_amount (rows cart id db)

  -- A write of an item, after the check of the cart.
  checked-Puts :
      (cart id : String) (a : ℤ) (call : Action DB CartItemRow) (db : DB)
      → Writes rows cart id a call
      → Puts amount cart id a db
          ((validate_cart_tenant client cart >> returns map_cart_item call) db)
  checked-Puts cart id a call db writes = elim (answer (client.count_carts cart db)) [
    | inr (e, failed) ↦ rw failed tt
    | inl (n, counted) ↦ elim (Bool-cases (n == 0)) [
      | inl e ↦ rw (counted, e) tt
      | inr e ↦ elim (outcome (call db)) [
        | inr (t, db₁, failed) ↦
            subst (Puts amount cart id a db) {x = (err t, db₁)} (ground (arith, counted, e, failed))
              tt
        | inl (r, db₁, made) ↦
            let (same, there, rest) = writes r db db₁ made in
            subst (Puts amount cart id a db) {x = (ok (map_cart_item r), db₁)}
              (ground (arith, counted, e, made))
              (ap row_amount there ∙ ap some same, λ c k apart. ap row_amount (rest c k apart))
      ]
    ]
  ]

  read_found :
      (tenant user id : String) (cart : Cart CartItem) (db : DB)
      → Carts.find_by_user_id_simple client tenant user db ≡ ok (some cart)
      → amount_of (existing_item id cart.items) ≡ amount cart.id id db
  unfolding Carts.find_by_user_id_simple
  read_found tenant user id cart db found = elim (answer (client.find_simple user db)) [
    | inr (e, failed) ↦ absurd (ground (arith, failed, found))
    | inl (none, read) ↦ absurd (ground (arith, read, found))
    | inl (some c, read) ↦
        let same : with_items map_cart_item c ≡ cart = ground (arith, read, found) in
        subst (λ x. amount_of (existing_item id x.items) ≡ amount x.id id db) same
          (existing_item-map id c.items ∙ ap row_amount (laws.find_lem user id c db read))
  ]

  -- The Prisma repository keeps the amounts of the carts as adding to a cart needs it, where the
  -- amount of a product in a cart is the one in the row of the two in the table of the items.
  pub cart_repository-HasAmounts : HasAmounts (cart_repository client) amount
  unfolding Carts.add_item Carts.update_item_amount
  cart_repository-HasAmounts = record {
    read_lem = read_found;
    add_lem = λ tenant cart id a db.
        checked-Puts cart id a (client.create_item cart id a) db (laws.create_lem cart id a);
    update_lem = λ tenant cart id a db.
        checked-Puts cart id a (client.update_item cart id a) db (laws.update_lem cart id a);
  }
