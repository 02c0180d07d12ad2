-- ===== src/Shop/Progress.antt =====
-- The life of an order's status under core/application/order/change-order-status.use-case.ts.
use api_neutra_v.Prelude.{
  ℕ, suc, ◌+◌, ◌≤◌, ◌≡◌, refl, inl, inr, true, none, some, String, Bool-cases, Option-cases, ap,
  ◌↔◌, str_eq, str_eq_iff, arith,
}
use api_neutra_v.Errors.Http.{http_status_from_domain_error}
use api_neutra_v.Errors.Middleware.{error_middleware}
use api_neutra_v.Runtime.{ok, UseCaseResult, outcome, answer, Refuses}
use api_neutra_v.Runtime.Number.{Number}
use api_neutra_v.Coupon.{CouponRepository}
use api_neutra_v.Shop.Entity.{
  OrderStatus, pendiente, pagado, enviado, entregado, can_transition_to, order_status_text, Order,
  CartRepository, ProductRepository, OrderRepository,
}
use api_neutra_v.Shop.Order.{parse_status, change_order_status}

-- The place of a status in the life of an order.
abbrev pub rank : OrderStatus → ℕ
rank pendiente = 0
rank pagado = 1
rank enviado = 2
rank entregado = 3

pub can_transition_to_iff :
    (a b : OrderStatus) → (can_transition_to a b ≡ true) ↔ (rank b ≡ suc (rank a))
can_transition_to_iff a b = ground arith

-- Orders that change by the transitions that the use case lets through.
pub data Progress (start : OrderStatus) : ℕ → OrderStatus → Type 0 where
  here : Progress start 0 start
  next :
      {n : ℕ} {a b : OrderStatus}
      → Progress start n a
      → can_transition_to a b ≡ true
      → Progress start (suc n) b

-- n changes of status bring an order n places further: no status is skipped or seen twice, and
-- there are three changes at most.
pub Progress-rank :
    {start s : OrderStatus} {n : ℕ} → Progress start n s → (rank s ≡ n + rank start) × (n ≤ 3)
Progress-rank here = (ground arith, ground arith)
Progress-rank {start} {s} (next {n} {a} {b} p h) =
    let (far, few) = Progress-rank p in
    let step = (can_transition_to_iff a b).0 h in
    (ground (arith, far, step), ground (arith, far, step))

parse_status-text : (s : OrderStatus) → parse_status (order_status_text s) ≡ some s
parse_status-text pendiente = refl
parse_status-text pagado = refl
parse_status-text enviado = refl
parse_status-text entregado = refl

text-parse_status :
    (s : String) (status : OrderStatus)
    → parse_status s ≡ some status
    → order_status_text status ≡ s
text-parse_status s status h = elim (Bool-cases (str_eq s "PENDIENTE")) [
  | inl e ↦ ground (arith, e, (str_eq_iff s "PENDIENTE").0 e)
  | inr a ↦ elim (Bool-cases (str_eq s "PAGADO")) [
    | inl e ↦ ground (arith, a, e, (str_eq_iff s "PAGADO").0 e)
    | inr b ↦ elim (Bool-cases (str_eq s "ENVIADO")) [
      | inl e ↦ ground (arith, a, b, e, (str_eq_iff s "ENVIADO").0 e)
      | inr c ↦ elim (Bool-cases (str_eq s "ENTREGADO")) [
        | inl e ↦ ground (arith, a, b, c, e, (str_eq_iff s "ENTREGADO").0 e)
        | inr d ↦ absurd (ground (arith, a, b, c, d))
      ]
    ]
  ]
]

module _ {S N : Type 0} (num : Number N) (carts : CartRepository S N)
    (products : ProductRepository S N) (orders : OrderRepository S N)
    (coupons : CouponRepository S N) where
  -- When a change of status returns, the text names a status, the order was found one place before
  -- it, and the repository wrote that status.
  pub change_order_status-next :
      (tenant id requested : String) (s s' : S) (r : UseCaseResult (Order N))
      → change_order_status num carts products orders coupons tenant id requested s ≡ (ok r, s')
      → (status : OrderStatus) × (order_status_text status ≡ requested)
        × (o : Order N) × (orders.find_by_id tenant id s ≡ ok (some o))
        × (rank status ≡ suc (rank o.status))
        × (u : Order N) × ((orders.update_status tenant id status s).0 ≡ ok u)
        × (r.value ≡ some u)
  unfolding change_order_status
  change_order_status-next tenant id requested s s' r h =
      elim (Option-cases (parse_status requested)) [
        | inl bad ↦ absurd (ground (arith, bad))
        | inr (status, good) ↦ elim (answer (orders.find_by_id tenant id s)) [
          | inr (e, failed) ↦ absurd (ground (arith, good, failed))
          | inl (none, found) ↦ absurd (ground (arith, good, found))
          | inl (some o, found) ↦ elim (outcome (orders.update_status tenant id status s)) [
            | inr (e, s₁, failed) ↦ absurd (ground (arith, good, found, failed))
            | inl (u, s₁, wrote) ↦ (
              status,
              text-parse_status requested status good,
              o,
              found,
              (can_transition_to_iff o.status status).0 (ground (arith, good, found)),
              u,
              ap (λ x. x.0) wrote,
              ground (arith, good, found, wrote),
            )
          ]
        ]
      ]

  -- A change to a status that is not one place further is answered with 409 and changes nothing.
  pub change_order_status_refused :
      (tenant id : String) (status : OrderStatus) (s : S) (o : Order N)
      → orders.find_by_id tenant id s ≡ ok (some o)
      → ¬ (rank status ≡ suc (rank o.status))
      → Refuses 409 s (
          change_order_status num carts products orders coupons tenant id
            (order_status_text status)
            s)
  unfolding change_order_status error_middleware http_status_from_domain_error
  change_order_status_refused tenant id status s o found not_next =
      elim (Bool-cases (can_transition_to o.status status)) [
        | inl e ↦ absurd (not_next ((can_transition_to_iff o.status status).0 e))
        | inr e ↦ rw (parse_status-text status, found, e) (refl, refl)
      ]
