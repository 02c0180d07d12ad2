-- ===== src/Tests/Coupons.antt =====
-- Coupons: runs, and the theorems at inputs.
use api_neutra_v.Prelude.{ℕ, ◌≡◌, ◌↔◌, refl, none, some, [], ◌∷◌, trim, utf16_length}
use api_neutra_v.Prelude.Int.{pos}
use api_neutra_v.Runtime.{ok, success_of, Time}
use api_neutra_v.Runtime.Number.{Le, decimal, decimal-IsOrdered}
use api_neutra_v.Coupon.{Coupon, CreateCouponData, percent, calculate_discount, date}
use api_neutra_v.Coupon.Validate.{ValidateCouponData, validate_coupon, check_coupon}
use api_neutra_v.Coupon.Create.{Clock, create_coupon, check_create}
use api_neutra_v.Coupon.Created.{IsCreatable, create_coupon_sound}
use api_neutra_v.Coupon.Discount.{calculate_discount_bounds}
use api_neutra_v.Coupon.Redeem.{IsRedeemable, accepted, validate_coupon_iff}
use api_neutra_v.Tests.Store.{half_off, coupons, no_coupons}

abbrev pub order : ValidateCouponData ℕ
order = record {
  code = "HALF";
  order_total = 2000000;
  product_ids = some ("p1" ∷ []);
  category_ids = none;
  service_ids = none;
}

half_of_200 : calculate_discount decimal half_off 2000000 ≡ 1000000
unfolding calculate_discount
half_of_200 = refl

validated :
    validate_coupon decimal coupons (pos 5) "t1" order tt
    ≡ (ok (accepted decimal half_off order), tt)
unfolding validate_coupon check_coupon
validated = refl

validate_coupon_iff_example :
    (validate_coupon decimal coupons (pos 5) "t1" order tt
      ≡ (ok (accepted decimal half_off order), tt))
    ↔ IsRedeemable decimal (pos 5) order half_off
validate_coupon_iff_example =
    validate_coupon_iff decimal coupons (pos 5) "t1" order half_off tt refl

calculate_discount_bounds_example :
    Le decimal 0 (calculate_discount decimal half_off 2000000)
    × Le decimal (calculate_discount decimal half_off 2000000) 2000000
calculate_discount_bounds_example =
    calculate_discount_bounds decimal decimal-IsOrdered half_off 2000000 refl tt refl

abbrev pub clock : Clock
clock = record { now = pos 5; parse = λ _. none }

abbrev pub new_coupon : CreateCouponData ℕ
new_coupon = record {
  code = " TEN ";
  type = percent;
  value = 100000;
  description = none;
  min_purchase_amount = none;
  max_discount_amount = none;
  usage_limit = none;
  active = none;
  expires_at = some (date (pos 9));
  applicable_products = none;
  applicable_categories = none;
  applicable_services = none;
}

created :
    create_coupon decimal no_coupons clock "t1" new_coupon tt
    ≡ (ok (success_of (some half_off) "Coupon created successfully"), tt)
unfolding create_coupon check_create trim utf16_length
created = refl

create_coupon_sound_example :
    (t : Time) × IsCreatable decimal clock new_coupon t
    × (no_coupons.find_by_code "t1" new_coupon.code tt ≡ ok none)
    × (c : Coupon ℕ) × (no_coupons.create "t1" new_coupon tt ≡ (ok c, tt))
    × (success_of (some half_off) "Coupon created successfully"
        ≡ success_of (some c) "Coupon created successfully")
create_coupon_sound_example =
    create_coupon_sound decimal no_coupons clock "t1" new_coupon tt tt
      (success_of (some half_off) "Coupon created successfully") created
