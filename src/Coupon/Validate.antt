-- ===== src/Coupon/Validate.antt =====
-- core/application/coupons/validate-coupon.use-case.ts
use api_neutra_v.Prelude.{
  Bool, true, false, not, ◌&&◌, String, Option, none, some, List, [], is_empty, any, includes, ◌<>◌,
}
use api_neutra_v.Errors.{entity_not_found_error, business_rule_violation_error}
use api_neutra_v.Runtime.{
  Action, ◌>>=◌, ◌>>◌, pure, query, throw_if, or_throw, UseCaseResult, success_of, Time,
}
use api_neutra_v.Runtime.Number.{Number, nonzero}
use api_neutra_v.Coupon.{
  Coupon, is_expired, has_reached_usage_limit, is_applicable_to_product, is_applicable_to_category,
  calculate_discount, CouponRepository,
}

pub record ValidateCouponData (N : Type 0) : Type 0 where
  pub code : String
  pub order_total : N
  pub product_ids : Option (List String)
  pub category_ids : Option (List String)
  pub service_ids : Option (List String)

pub record CouponValidationResult (N : Type 0) : Type 0 where
  pub valid : Bool
  pub coupon : Coupon N
  pub discount_amount : N
  pub message : String

-- `ids && ids.length > 0`, and the list that is meant.
abbrev pub ids : Option (List String) → List String
ids none = []
ids (some xs) = xs

abbrev pub given : Option (List String) → Bool
given o = not (is_empty (ids o))

module _ {N : Type 0} (num : Number N) where
  -- `coupon.minPurchaseAmount && data.orderTotal < coupon.minPurchaseAmount`
  abbrev pub under_minimum : Option N → N → Bool
  under_minimum none total = false
  under_minimum (some least) total = nonzero num least && num.lt total least

  abbrev minimum_text : Option N → String
  minimum_text none = ""
  minimum_text (some least) = "Minimum purchase amount of $" <> num.show least <> " required"

  -- No product of the order fits; no category fits.
  abbrev pub misses_products : Coupon N → ValidateCouponData N → Bool
  misses_products c d =
      given d.product_ids && not (any (is_applicable_to_product c) (ids d.product_ids))

  abbrev pub misses_categories : Coupon N → ValidateCouponData N → Bool
  misses_categories c d =
      given d.category_ids && not (any (is_applicable_to_category c) (ids d.category_ids))

  -- The coupon is for services, the order has some, and none fits.
  abbrev pub misses_services : Coupon N → ValidateCouponData N → Bool
  misses_services c d =
      not (is_empty c.applicable_services)
      && given d.service_ids
      && not (any (includes c.applicable_services) (ids d.service_ids))

  -- The coupon is for services alone, and the order has products and no service.
  abbrev pub only_services : Coupon N → ValidateCouponData N → Bool
  only_services c d =
      not (is_empty c.applicable_services)
      && not (given d.service_ids)
      && (given d.product_ids && is_empty c.applicable_products && is_empty c.applicable_categories)

  -- The guards on a coupon that was found, in order.
  unfoldable pub check_coupon :
      {S : Type 0} → Time → ValidateCouponData N → Coupon N → Action S (Unit {0})
  check_coupon now d c = do
    throw_if (not c.active) (business_rule_violation_error "Coupon is not active")
    throw_if (is_expired now c) (business_rule_violation_error "Coupon has expired")
    throw_if (has_reached_usage_limit c)
        (business_rule_violation_error "Coupon usage limit reached")
    throw_if (under_minimum c.min_purchase_amount d.order_total)
        (business_rule_violation_error (minimum_text c.min_purchase_amount))
    throw_if (misses_products c d)
        (business_rule_violation_error "Coupon not applicable to products in cart")
    throw_if (misses_categories c d)
        (business_rule_violation_error "Coupon not applicable to product categories in cart")
    throw_if (misses_services c d)
        (business_rule_violation_error "Coupon not applicable to this service")
    throw_if (only_services c d)
        (business_rule_violation_error "Coupon is only applicable to services")

  unfoldable pub validate_coupon :
      {S : Type 0}
      → CouponRepository S N
      → Time
      → String
      → ValidateCouponData N
      → Action S (UseCaseResult (CouponValidationResult N))
  validate_coupon repo now tenant d = do
    found ← query (repo.find_by_code tenant d.code)
    coupon ← or_throw found (entity_not_found_error "Coupon" d.code)
    check_coupon now d coupon
    pure (
        success_of
          (some (record {
            valid = true;
            coupon = coupon;
            discount_amount = calculate_discount num coupon d.order_total;
            message = "Coupon is valid";
          }))
          "Coupon is valid")
