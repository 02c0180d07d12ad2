-- ===== src/Coupon/Created.antt =====
-- What a created coupon satisfies.
use api_neutra_v.Prelude.{
  ◌≤◌, true, false, ◌≡◌, String, none, some, trim, utf16_length, arith, inl, inr, Option-cases,
}
use api_neutra_v.Prelude.Int.{◌<ℤ◌}
use api_neutra_v.Runtime.{ok, UseCaseResult, success_of, Time, outcome}
use api_neutra_v.Runtime.Number.{Number, Le, IsOrdered}
use api_neutra_v.Coupon.{
  CouponType, percent, fixed, Coupon, CreateCouponData, DateInput, date, date_text,
  CouponRepository,
}
use api_neutra_v.Coupon.Create.{Clock, to_date, check_create, create_coupon, bad_percent, bad_fixed}

module _ {N : Type 0} (num : Number N) where
  -- A percentage in (0, 100], or a positive amount.
  abbrev pub IsValue : CouponType → N → Type 0
  IsValue percent v = (num.lt num.nought v ≡ true) × Le num v num.hundred
  IsValue fixed v = num.lt num.nought v ≡ true

  pub IsValue-nonneg :
      (laws : IsOrdered num) (t : CouponType) (v : N) → IsValue t v → Le num num.nought v
  IsValue-nonneg laws percent v h = laws.le_of_lt num.nought v h.0
  IsValue-nonneg laws fixed v h = laws.le_of_lt num.nought v h

  pub record IsCreatable (clock : Clock) (d : CreateCouponData N) (t : Time) : Type 0 where
    pub long_code : 3 ≤ utf16_length (trim d.code)
    pub value : IsValue d.type d.value
    pub requested :
        (given : DateInput) × (d.expires_at ≡ some given) × (to_date clock given ≡ some t)
    pub in_future : clock.now <ℤ t

  IsValue-of :
      (t : CouponType) (v : N)
      → bad_percent num t v ≡ false
      → bad_fixed num t v ≡ false
      → IsValue t v
  IsValue-of percent v p f = ground arith
  IsValue-of fixed v p f = ground arith

  -- The guards from the date on find the date of the request.
  requested_lem :
      {S : Type 0} (clock : Clock) (d : CreateCouponData N) (s s' : S) (t : Time)
      → check_create num clock d s ≡ (ok t, s')
      → (given : DateInput) × (d.expires_at ≡ some given) × (to_date clock given ≡ some t)
  unfolding check_create
  requested_lem clock d s s' t h = elim (Option-cases d.expires_at) [
    | inl e ↦ absurd (ground (arith, e, h))
    | inr (date u, e) ↦ (date u, e, ground (arith, e, h))
    | inr (date_text text, e) ↦ elim (Option-cases (clock.parse text)) [
      | inl p ↦ absurd (ground (arith, e, p, h))
      | inr (u, p) ↦ (date_text text, e, ground (arith, e, p, h))
    ]
  ]

  check_create_sound :
      {S : Type 0} (clock : Clock) (d : CreateCouponData N) (s s' : S) (t : Time)
      → check_create num clock d s ≡ (ok t, s')
      → IsCreatable clock d t × (s' ≡ s)
  unfolding check_create
  check_create_sound clock d s s' t h = (
    record {
      long_code = ground arith;
      value = IsValue-of d.type d.value (ground arith) (ground arith);
      requested = requested_lem clock d s s' t h;
      in_future = ground arith;
    },
    ground arith,
  )

  -- When a coupon is created, its trimmed code has three characters or more, its value is a
  -- percentage in (0, 100] or a positive amount, the requested date of expiry lies after the present
  -- instant, no coupon of the tenant had the code, and the store is what the repository's `create` left.
  pub create_coupon_sound :
      {S : Type 0} (repo : CouponRepository S N) (clock : Clock) (tenant : String)
      (d : CreateCouponData N) (s s' : S) (r : UseCaseResult (Coupon N))
      → create_coupon num repo clock tenant d s ≡ (ok r, s')
      → (t : Time) × IsCreatable clock d t
        × (repo.find_by_code tenant d.code s ≡ ok none)
        × (c : Coupon N) × (repo.create tenant d s ≡ (ok c, s'))
        × (r ≡ success_of (some c) "Coupon created successfully")
  unfolding create_coupon
  create_coupon_sound repo clock tenant d s s' r h = elim (outcome (check_create num clock d s)) [
    | inr (e, s₁, failed) ↦ absurd (ground (arith, failed))
    | inl (t, s₁, checked) ↦
        let (creatable, same) = check_create_sound clock d s s₁ t checked in
        elim (outcome (repo.create tenant d s)) [
          | inr (e, s₂, failed) ↦ absurd (ground (arith, failed, checked, same))
          | inl (c, s₂, created) ↦ (
            t,
            creatable,
            ground (arith, checked, same, created),
            c,
            ground (arith, checked, same, created),
            ground (arith, checked, same, created),
          )
        ]
  ]
