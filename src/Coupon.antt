-- ===== src/Coupon.antt =====
-- core/entities/coupon.entity.ts, and the coupon repository's interface.
pub mod Validate
pub mod Create
pub mod Created
pub mod Discount
pub mod Redeem
pub mod Change
pub mod Prisma
use api_neutra_v.Prelude.{
  Bool, true, false, String, Option, none, some, List, is_empty, includes, ◌||◌, if◌then◌else◌,
}
use api_neutra_v.Prelude.Int.{ℤ, leb_ℤ, ltb_ℤ}
use api_neutra_v.Runtime.{Time, Action, Result}
use api_neutra_v.Runtime.Number.{Number, minimum}

pub data CouponType : Type 0 where
  percent fixed : CouponType

pub record Coupon (N : Type 0) : Type 0 where
  pub id : String
  pub code : String
  pub type : CouponType
  pub value : N
  pub description : Option String
  pub min_purchase_amount : Option N
  pub max_discount_amount : Option N
  pub usage_limit : Option ℤ
  pub usage_count : ℤ
  pub active : Bool
  pub expires_at : Time
  pub applicable_products : List String
  pub applicable_categories : List String
  pub applicable_services : List String
  pub created_at : Time
  pub updated_at : Time

abbrev pub reached : Option ℤ → ℤ → Bool
reached none count = false
reached (some limit) count = leb_ℤ limit count

module _ {N : Type 0} where
  -- `new Date() > coupon.expiresAt`, at the instant `now`.
  abbrev pub is_expired : Time → Coupon N → Bool
  is_expired now c = ltb_ℤ c.expires_at now

  abbrev pub has_reached_usage_limit : Coupon N → Bool
  has_reached_usage_limit c = reached c.usage_limit c.usage_count

  abbrev pub is_applicable_to_product : Coupon N → String → Bool
  is_applicable_to_product c id =
      is_empty c.applicable_products || includes c.applicable_products id

  abbrev pub is_applicable_to_category : Coupon N → String → Bool
  is_applicable_to_category c id =
      is_empty c.applicable_categories || includes c.applicable_categories id

module _ {N : Type 0} (num : Number N) where
  abbrev pub below_minimum : Option N → N → Bool
  below_minimum none subtotal = false
  below_minimum (some least) subtotal = num.lt subtotal least

  abbrev raw_discount : CouponType → N → N → N
  raw_discount percent value subtotal = num.mul subtotal (num.div value num.hundred)
  raw_discount fixed value subtotal = value

  abbrev capped : Option N → N → N
  capped none discount = discount
  capped (some most) discount = if num.lt most discount then most else discount

  unfoldable pub calculate_discount : Coupon N → N → N
  calculate_discount c subtotal =
      if below_minimum c.min_purchase_amount subtotal
      then num.nought
      else minimum num (capped c.max_discount_amount (raw_discount c.type c.value subtotal))
          subtotal

-- `Date | string`
pub data DateInput : Type 0 where
  date : Time → DateInput
  date_text : String → DateInput

pub record CreateCouponData (N : Type 0) : Type 0 where
  pub code : String
  pub type : CouponType
  pub value : N
  pub description : Option String
  pub min_purchase_amount : Option N
  pub max_discount_amount : Option N
  pub usage_limit : Option ℤ
  pub active : Option Bool
  pub expires_at : Option DateInput
  pub applicable_products : Option (List String)
  pub applicable_categories : Option (List String)
  pub applicable_services : Option (List String)

-- The methods of `ICouponRepository` that creating and using a coupon call, over a store `S`.
pub record CouponRepository (S N : Type 0) : Type 0 where
  pub find_by_code : String → String → S → Result (Option (Coupon N))
  pub create : String → CreateCouponData N → Action S (Coupon N)
  pub increment_usage : String → String → Action S (Unit {0})
