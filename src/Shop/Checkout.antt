-- ===== src/Shop/Checkout.antt =====
-- Orders placed from a cart: core/application/order/create-order.use-case.ts.
use api_neutra_v.Prelude.{
  ◌≡◌, refl, sym, ap, ◌∙◌, subst, inl, inr, false, Option, none, some, String, List, [], map,
  is_empty, truthy, if◌then◌else◌, List-cases, Bool-cases, arith,
}
use api_neutra_v.Prelude.Int.{ℤ}
use api_neutra_v.Errors.{Thrown, domain}
use api_neutra_v.Errors.Http.{http_status_from_domain_error}
use api_neutra_v.Errors.Middleware.{error_middleware}
use api_neutra_v.Runtime.{Result, ok, err, UseCaseResult, outcome, answer, Refuses}
use api_neutra_v.Runtime.Number.{Number}
use api_neutra_v.Coupon.{CouponRepository}
use api_neutra_v.Shop.Entity.{
  Cart, FullItem, Order, OrderCreateData, CartRepository, ProductRepository, OrderRepository,
}
use api_neutra_v.Shop.Cart.{CartLine, line_of, get_cart, clear_cart}
use api_neutra_v.Shop.Order.{
  cart_empty, empty_if_not_found, order_data, cart_lines, count_coupon, settle, create_order,
}
use api_neutra_v.Shop.Stock.{HasStock, deduct_lem, less, ordered}

-- The other calls of a checkout do not touch the stock.
pub record LeavesStock {S N : Type 0} (carts : CartRepository S N) (orders : OrderRepository S N)
    (coupons : CouponRepository S N) (confirm : String → String → Order N → S → S)
    (stock : String → S → Option ℤ) : Type 0 where
  pub create_lem :
      (tenant : String) (d : OrderCreateData N) (s : S) (k : String)
      → stock k (orders.create tenant d s).1 ≡ stock k s
  pub increment_lem :
      (tenant id : String) (s : S) (k : String)
      → stock k (coupons.increment_usage tenant id s).1 ≡ stock k s
  pub clear_lem :
      (tenant id : String) (s : S) (k : String)
      → stock k (carts.clear_items tenant id s).1 ≡ stock k s
  pub confirm_lem :
      (tenant user : String) (o : Order N) (s : S) (k : String)
      → stock k (confirm tenant user o s) ≡ stock k s

module _ {S N : Type 0} (num : Number N) (carts : CartRepository S N)
    (products : ProductRepository S N) (orders : OrderRepository S N)
    (coupons : CouponRepository S N) where
  abbrev pub IsCartOf : String → String → S → Cart (FullItem N) → Type 0
  IsCartOf tenant user s cart =
      (carts.find_by_user_id tenant user s ≡ ok (some cart)) × (is_empty cart.items ≡ false)

  -- The cart that the repository finds decides what `cart_lines` gives, which writes nothing.
  abbrev pub lines_from : Option (Cart (FullItem N)) → Result (List (CartLine N))
  lines_from none = err (domain cart_empty)
  lines_from (some cart) =
      if is_empty cart.items then err (domain cart_empty) else ok (map line_of cart.items)

  cart_lines-found :
      (tenant user : String) (s : S) (found : Option (Cart (FullItem N)))
      → carts.find_by_user_id tenant user s ≡ ok found
      → cart_lines num carts products orders coupons tenant user s ≡ (lines_from found, s)
  unfolding cart_lines get_cart
  cart_lines-found tenant user s none h = ground (arith, h)
  cart_lines-found tenant user s (some cart) h = elim (List-cases cart.items) [
    | inl e ↦ ground (arith, h, e)
    | inr (i, items, e) ↦ ground (arith, h, e)
  ]

  cart_lines-failed :
      (tenant user : String) (s : S) (e : Thrown)
      → carts.find_by_user_id tenant user s ≡ err e
      → cart_lines num carts products orders coupons tenant user s ≡ (err (empty_if_not_found e), s)
  unfolding cart_lines get_cart
  cart_lines-failed tenant user s e h = ground (arith, h)

  cart_lines_sound :
      (tenant user : String) (s s' : S) (lines : List (CartLine N))
      → cart_lines num carts products orders coupons tenant user s ≡ (ok lines, s')
      → (s' ≡ s)
        × (cart : Cart (FullItem N)) × IsCartOf tenant user s cart
        × (lines ≡ map line_of cart.items)
  cart_lines_sound tenant user s s' lines h = elim (answer (carts.find_by_user_id tenant user s)) [
    | inr (e, failed) ↦ absurd (ground (arith, cart_lines-failed tenant user s e failed, h))
    | inl (none, found) ↦ absurd (ground (arith, cart_lines-found tenant user s none found, h))
    | inl (some cart, found) ↦ elim (Bool-cases (is_empty cart.items)) [
      | inl e ↦ absurd (ground (arith, cart_lines-found tenant user s (some cart) found, h, e))
      | inr e ↦ (
        ground (arith, cart_lines-found tenant user s (some cart) found, h, e),
        cart,
        (found, e),
        ground (arith, cart_lines-found tenant user s (some cart) found, h, e),
      )
    ]
  ]

  refused :
      (confirm : String → String → Order N → S → S) (tenant user : String) (coupon : Option String)
      (s : S)
      → cart_lines num carts products orders coupons tenant user s ≡ (err (domain cart_empty), s)
      → Refuses 422 s (create_order num carts products orders coupons confirm tenant user coupon s)
  unfolding create_order error_middleware http_status_from_domain_error
  refused confirm tenant user coupon s h =
      subst (Refuses 422 s) {x = (err (domain cart_empty), s)} (ground (arith, h)) (refl, refl)

  -- An order from a cart that is missing or empty is answered with 422, and nothing is written.
  pub create_order_refused :
      (confirm : String → String → Order N → S → S) (tenant user : String) (coupon : Option String)
      (s : S) (found : Option (Cart (FullItem N)))
      → carts.find_by_user_id tenant user s ≡ ok found
      → ((cart : Cart (FullItem N)) → found ≡ some cart → cart.items ≡ [])
      → Refuses 422 s (create_order num carts products orders coupons confirm tenant user coupon s)
  create_order_refused confirm tenant user coupon s none h empty =
      refused confirm tenant user coupon s (cart_lines-found tenant user s none h)
  create_order_refused confirm tenant user coupon s (some cart) h empty =
      refused confirm tenant user coupon s
        (cart_lines-found tenant user s (some cart) h ∙ rw (empty cart refl) refl)

  module _ (tenant : String) (confirm : String → String → Order N → S → S)
      (stock : String → S → Option ℤ) (has : HasStock products tenant stock)
      (leaves : LeavesStock carts orders coupons confirm stock) where
    count_coupon_keeps :
        (coupon : Option String) (s : S) (k : String)
        → stock k (count_coupon num carts products orders coupons tenant coupon s).1 ≡ stock k s
    count_coupon_keeps none s k = refl
    count_coupon_keeps (some c) s k = elim (Bool-cases (truthy c)) [
      | inl e ↦ rw e (leaves.increment_lem tenant c s k)
      | inr e ↦ rw e refl
    ]

    clear_cart_keeps :
        (user : String) (s : S) (k : String)
        → stock k (clear_cart num carts tenant user s).1 ≡ stock k s
    unfolding clear_cart
    clear_cart_keeps user s k = elim (answer (carts.find_by_user_id_simple tenant user s)) [
      | inr (e, failed) ↦ rw failed refl
      | inl (none, found) ↦ rw found refl
      | inl (some cart, found) ↦ elim (outcome (carts.clear_items tenant cart.id s)) [
        | inr (e, s₁, failed) ↦ ground (arith, found, failed, leaves.clear_lem tenant cart.id s k)
        | inl (u, s₁, made) ↦ ground (arith, found, made, leaves.clear_lem tenant cart.id s k)
      ]
    ]

    settled :
        (user : String) (coupon : Option String) (lines : List (CartLine N)) (order : Order N)
        (s s' : S) (r : UseCaseResult (Order N))
        → settle num carts products orders coupons confirm tenant user coupon lines order s
          ≡ (ok r, s')
        → (r.value ≡ some order) × ((k : String) → stock k s' ≡ less (stock k s) (ordered k lines))
    unfolding settle
    settled user coupon lines order s s' r h =
        elim (outcome (count_coupon num carts products orders coupons tenant coupon s)) [
          | inr (e, s₁, failed) ↦ absurd (ground (arith, failed))
          | inl (u, s₁, counted) ↦
              let (s₂, taken, fallen) =
                deduct_lem num carts products orders coupons tenant stock has lines s₁ in
              elim (outcome (clear_cart num carts tenant user s₂)) [
                | inr (e, s₃, failed) ↦ absurd (ground (arith, counted, taken, failed))
                | inl (c, s₃, cleared) ↦ (
                  ground (arith, counted, taken, cleared),
                  λ k.
                      ap (stock k) (ground (arith, counted, taken, cleared))
                      ∙ leaves.confirm_lem tenant user order s₃ k
                      ∙ ap (λ x. stock k x.1) (sym cleared)
                      ∙ clear_cart_keeps user s₂ k
                      ∙ fallen k
                      ∙ ap (λ n. less n (ordered k lines))
                          (ap (λ x. stock k x.1) (sym counted) ∙ count_coupon_keeps coupon s k),
                )
              ]
        ]

    -- When an order is placed, the user had a cart that was not empty, the repository created the
    -- order from the lines of that cart at the prices of its products, the order is the result, and
    -- the stock of every product has fallen by exactly what the cart asked for.
    pub create_order_sells :
        (user : String) (coupon : Option String) (s s' : S) (r : UseCaseResult (Order N))
        → create_order num carts products orders coupons confirm tenant user coupon s ≡ (ok r, s')
        → (cart : Cart (FullItem N)) × IsCartOf tenant user s cart
          × (order : Order N) × ((orders.create tenant
                (order_data user coupon (map line_of cart.items))
                s).0
              ≡ ok order)
          × (r.value ≡ some order)
          × ((k : String) → stock k s' ≡ less (stock k s) (ordered k (map line_of cart.items)))
    unfolding create_order
    create_order_sells user coupon s s' r h =
        elim (outcome (cart_lines num carts products orders coupons tenant user s)) [
          | inr (e, s₁, failed) ↦ absurd (ground (arith, failed))
          | inl (lines, s₁, read) ↦
              let (same, cart, of, all) = cart_lines_sound tenant user s s₁ lines read in
              let d = order_data user coupon lines in
              elim (outcome (orders.create tenant d s)) [
                | inr (e, s₂, failed) ↦ absurd (ground (arith, read, same, failed))
                | inl (order, s₂, made) ↦
                    let (valued, sold) =
                      settled user coupon lines order s₂ s' r
                        (ground (arith, read, same, made, h)) in
                    (
                      cart,
                      of,
                      order,
                      rw (sym all) (ap (λ x. x.0) made),
                      valued,
                      λ k.
                          sold k
                          ∙ rw (sym all) (
                              ap (λ n. less n (ordered k lines))
                                (ap (λ x. stock k x.1) (sym made)
                                  ∙ leaves.create_lem tenant d s k)),
                    )
              ]
        ]
