-- ===== src/Coupon/Redeem.antt =====
-- What it takes for a coupon to be accepted, independently of the chain of guards.
use api_neutra_v.Prelude.{
  Bool, true, false, not, ◌&&◌, ◌≡◌, ◌↔◌, ◌⊎◌, inl, inr, refl, String, Option, none, some, List, [],
  ◌∷◌, is_empty, any, includes, arith, Some, any_iff, Bool-cases,
}
use api_neutra_v.Prelude.Int.{ℤ, ◌≤ℤ◌, ◌<ℤ◌}
use api_neutra_v.Runtime.{Time, ok, UseCaseResult, success_of}
use api_neutra_v.Runtime.Number.{Number}
use api_neutra_v.Coupon.{
  Coupon, is_expired, has_reached_usage_limit, is_applicable_to_product, is_applicable_to_category,
  calculate_discount, CouponRepository, reached,
}
use api_neutra_v.Coupon.Validate.{
  ValidateCouponData, CouponValidationResult, ids, under_minimum, misses_products,
  misses_categories, misses_services, only_services, check_coupon, validate_coupon,
}

-- The limit on the number of uses is not reached yet.
abbrev pub HasUsesLeft : Option ℤ → ℤ → Type 0
HasUsesLeft none count = Unit
HasUsesLeft (some limit) count = count <ℤ limit

-- Without ids there is nothing to fit; with ids one of them fits.
abbrev pub Fits : (String → Bool) → List String → Type 0
Fits p xs = (is_empty xs ≡ true) ⊎ Some p xs

module _ {N : Type 0} (num : Number N) where
  pub record IsRedeemable (now : Time) (d : ValidateCouponData N) (c : Coupon N) : Type 0 where
    pub active : c.active ≡ true
    pub unexpired : now ≤ℤ c.expires_at
    pub uses_left : HasUsesLeft c.usage_limit c.usage_count
    pub over_minimum : under_minimum num c.min_purchase_amount d.order_total ≡ false
    pub fits_products : Fits (is_applicable_to_product c) (ids d.product_ids)
    pub fits_categories : Fits (is_applicable_to_category c) (ids d.category_ids)
    pub fits_services :
        (is_empty c.applicable_services ≡ true)
        ⊎ Fits (includes c.applicable_services) (ids d.service_ids)
    pub not_only_services : only_services num c d ≡ false

  uses_left_iff : (o : Option ℤ) (count : ℤ) → (reached o count ≡ false) ↔ HasUsesLeft o count
  uses_left_iff none count = (λ _. tt, λ _. refl)
  uses_left_iff (some l) count = (λ h. ground arith, λ h. ground arith)

  Fits-iff :
      (p : String → Bool) (xs : List String)
      → ((not (is_empty xs) && not (any p xs)) ≡ false) ↔ Fits p xs
  Fits-iff p [] = (λ _. inl refl, λ _. refl)
  Fits-iff p (x ∷ xs) = elim (Bool-cases (any p (x ∷ xs))) [
    | inl e ↦ rw e (λ _. inr ((any_iff p (x ∷ xs)).0 e), λ _. refl)
    | inr e ↦ rw e (λ h. cc, elim [ inl h ↦ cc | inr s ↦ cc (e, (any_iff p (x ∷ xs)).1 s) ])
  ]

  guards_iff :
      {S : Type 0} (now : Time) (d : ValidateCouponData N) (c : Coupon N) (s : S)
      → (check_coupon num now d c s ≡ (ok tt, s)) ↔ (
          (c.active ≡ true)
          × (is_expired now c ≡ false)
          × (has_reached_usage_limit c ≡ false)
          × (under_minimum num c.min_purchase_amount d.order_total ≡ false)
          × (misses_products num c d ≡ false)
          × (misses_categories num c d ≡ false)
          × (misses_services num c d ≡ false)
          × (only_services num c d ≡ false))
  unfolding check_coupon
  guards_iff now d c s = (λ h. ground arith, λ h. ground arith)

  services_iff :
      (d : ValidateCouponData N) (c : Coupon N)
      → (misses_services num c d ≡ false) ↔ (
          (is_empty c.applicable_services ≡ true)
          ⊎ Fits (includes c.applicable_services) (ids d.service_ids))
  services_iff d c = elim (Bool-cases (is_empty c.applicable_services)) [
    | inl e ↦ rw e (λ _. inl refl, λ _. refl)
    | inr e ↦
        let (to, from) = Fits-iff (includes c.applicable_services) (ids d.service_ids) in
        rw e (λ h. inr (to h), elim [ inl h ↦ cc | inr f ↦ from f ])
  ]

  active-of : (b : Bool) → b ≡ true → not b ≡ false
  active-of b h = rw h

  IsRedeemable-iff :
      {S : Type 0} (now : Time) (d : ValidateCouponData N) (c : Coupon N) (s : S)
      → (check_coupon num now d c s ≡ (ok tt, s)) ↔ IsRedeemable now d c
  IsRedeemable-iff now d c s = (
    λ h.
        let (a, x, l, m, p, k, v, o) = (guards_iff now d c s).0 h in
        record {
          active = a;
          unexpired = ground arith;
          uses_left = (uses_left_iff c.usage_limit c.usage_count).0 l;
          over_minimum = m;
          fits_products = (Fits-iff (is_applicable_to_product c) (ids d.product_ids)).0 p;
          fits_categories = (Fits-iff (is_applicable_to_category c) (ids d.category_ids)).0 k;
          fits_services = (services_iff d c).0 v;
          not_only_services = o;
        },
    λ r. (guards_iff now d c s).1 (
      r.active,
      expired r,
      (uses_left_iff c.usage_limit c.usage_count).1 r.uses_left,
      r.over_minimum,
      (Fits-iff (is_applicable_to_product c) (ids d.product_ids)).1 r.fits_products,
      (Fits-iff (is_applicable_to_category c) (ids d.category_ids)).1 r.fits_categories,
      (services_iff d c).1 r.fits_services,
      r.not_only_services,
    ),
  )
    where
      expired : IsRedeemable now d c → is_expired now c ≡ false
      expired r = let u : now ≤ℤ c.expires_at = r.unexpired in ground arith

  -- What `validate_coupon` answers for an accepted coupon.
  abbrev pub accepted : Coupon N → ValidateCouponData N → UseCaseResult (CouponValidationResult N)
  accepted c d =
      success_of
        (some (record {
          valid = true;
          coupon = c;
          discount_amount = calculate_discount num c d.order_total;
          message = "Coupon is valid";
        }))
        "Coupon is valid"

  -- A coupon that the store has under the code is accepted, with its discount and with the store
  -- unchanged, exactly when it is redeemable for the order.
  pub validate_coupon_iff :
      {S : Type 0} (repo : CouponRepository S N) (now : Time) (tenant : String)
      (d : ValidateCouponData N) (c : Coupon N) (s : S)
      → repo.find_by_code tenant d.code s ≡ ok (some c)
      → (validate_coupon num repo now tenant d s ≡ (ok (accepted c d), s)) ↔ IsRedeemable now d c
  unfolding validate_coupon
  validate_coupon_iff repo now tenant d c s found =
      let (to, from) = IsRedeemable-iff now d c s in
      (λ h. to (ground (arith, found)), λ r. ground (arith, found, from r))
