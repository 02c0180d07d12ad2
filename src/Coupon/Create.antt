-- ===== src/Coupon/Create.antt =====
-- core/application/coupons/create-coupon.use-case.ts
use api_neutra_v.Prelude.{
  Bool, false, not, ◌||◌, String, Option, none, some, truthy, trim, utf16_length, ltb, is_some,
  if◌then◌else◌,
}
use api_neutra_v.Prelude.Int.{leb_ℤ}
use api_neutra_v.Errors.{validation_error, duplicate_entity_error}
use api_neutra_v.Runtime.{
  Action, ◌>>=◌, ◌>>◌, pure, query, throw_if, or_throw, UseCaseResult, success_of, Time,
}
use api_neutra_v.Runtime.Number.{Number}
use api_neutra_v.Coupon.{
  CouponType, percent, fixed, Coupon, CreateCouponData, DateInput, date, date_text,
  CouponRepository,
}

-- The clock of the process and `new Date(text)`, which is `none` where the date is invalid.
pub record Clock : Type 0 where
  pub now : Time
  pub parse : String → Option Time

-- `!data.expiresAt`, with the empty text as an absent one.
abbrev given_date : Option DateInput → Option DateInput
given_date none = none
given_date (some (date t)) = some (date t)
given_date (some (date_text s)) = if truthy s then some (date_text s) else none

abbrev pub to_date : Clock → DateInput → Option Time
to_date clock (date t) = some t
to_date clock (date_text s) = clock.parse s

module _ {N : Type 0} (num : Number N) where
  -- `value <= 0`
  abbrev not_positive : N → Bool
  not_positive v = not (num.lt num.nought v)

  abbrev pub bad_percent : CouponType → N → Bool
  bad_percent percent v = not_positive v || num.lt num.hundred v
  bad_percent fixed v = false

  abbrev pub bad_fixed : CouponType → N → Bool
  bad_fixed percent v = false
  bad_fixed fixed v = not_positive v

  -- The guards on the request, in order; the expiration date is what they find.
  unfoldable pub check_create : {S : Type 0} → Clock → CreateCouponData N → Action S Time
  check_create clock d = do
    throw_if (not (truthy d.code) || ltb (utf16_length (trim d.code)) 3)
        (validation_error "Coupon code must be at least 3 characters")
    throw_if (bad_percent d.type d.value)
        (validation_error "Percentage discount must be between 0 and 100")
    throw_if (bad_fixed d.type d.value) (validation_error "Fixed discount must be greater than 0")
    given ← or_throw (given_date d.expires_at) (validation_error "Expiration date is required")
    expiration ← or_throw (to_date clock given) (validation_error "Invalid expiration date format")
    throw_if (leb_ℤ expiration clock.now) (validation_error "Expiration date must be in the future")
    pure expiration

  unfoldable pub create_coupon :
      {S : Type 0}
      → CouponRepository S N
      → Clock
      → String
      → CreateCouponData N
      → Action S (UseCaseResult (Coupon N))
  create_coupon repo clock tenant d = do
    check_create clock d
    existing ← query (repo.find_by_code tenant d.code)
    throw_if (is_some existing) (duplicate_entity_error "Coupon" "code" d.code)
    coupon ← repo.create tenant d
    pure (success_of (some coupon) "Coupon created successfully")
