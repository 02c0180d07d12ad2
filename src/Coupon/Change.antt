-- ===== src/Coupon/Change.antt =====
-- The other use cases on coupons, core/application/coupons, and all methods of
-- core/repositories/coupon.repository.interface.ts.
use api_neutra_v.Prelude.{
  ℕ, zero, suc, Bool, String, Option, none, some, List, or_default, if◌then◌else◌,
}
use api_neutra_v.Prelude.Int.{ℤ, pos, negsuc}
use api_neutra_v.Errors.{entity_not_found_error}
use api_neutra_v.Runtime.{
  Result, Action, ◌>>=◌, ◌>>◌, pure, query, or_throw, UseCaseResult, success_of,
}
use api_neutra_v.Coupon.{CouponType, Coupon, DateInput, CreateCouponData, CouponRepository}

pub record UpdateCouponData (N : Type 0) : Type 0 where
  pub code : Option String
  pub type : Option CouponType
  pub value : Option N
  pub description : Option String
  pub min_purchase_amount : Option N
  pub max_discount_amount : Option N
  pub usage_limit : Option ℤ
  pub active : Option Bool
  pub expires_at : Option DateInput
  pub applicable_products : Option (List String)
  pub applicable_categories : Option (List String)

pub data StatusFilter : Type 0 where
  active expired used unused all : StatusFilter

-- The type of a coupon, or `all`; the database refuses any other text, which is left out.
pub data TypeFilter : Type 0 where
  of_type : CouponType → TypeFilter
  any_type : TypeFilter

pub record PageOptions : Type 0 where
  pub search : Option String
  pub type : Option TypeFilter
  pub status : StatusFilter
  pub page : ℤ
  pub limit : ℤ

-- What a client asks for; page, limit and status may be left out.
pub record PageQuery : Type 0 where
  pub search : Option String
  pub type : Option TypeFilter
  pub status : Option StatusFilter
  pub page : Option ℤ
  pub limit : Option ℤ

pub record CouponPage (N : Type 0) : Type 0 where
  pub coupons : List (Coupon N)
  pub total : ℕ

pub record CouponStats : Type 0 where
  pub total_coupons : ℕ
  pub active_coupons : ℕ
  pub used_coupons : ℕ
  pub unused_coupons : ℕ
  pub expired_coupons : ℕ

-- `ICouponRepository`
pub record CouponStore (S N : Type 0) : Type 0 where
  pub find_all : Option String → S → Result (List (Coupon N))
  pub find_by_id : String → String → S → Result (Option (Coupon N))
  pub find_by_code : String → String → S → Result (Option (Coupon N))
  pub find_active : Option String → S → Result (List (Coupon N))
  pub find_all_paginated : Option String → PageOptions → S → Result (CouponPage N)
  pub create : String → CreateCouponData N → Action S (Coupon N)
  pub update : String → String → UpdateCouponData N → Action S (Coupon N)
  pub delete : String → String → Action S (Unit {0})
  pub increment_usage : String → String → Action S (Unit {0})
  pub get_stats : String → S → Result CouponStats

-- The methods that creating and using a coupon call.
abbrev pub core : {S N : Type 0} → CouponStore S N → CouponRepository S N
core repo = record {
  find_by_code = repo.find_by_code;
  create = repo.create;
  increment_usage = repo.increment_usage;
}

-- `value || fallback`, for a number that may be missing.
abbrev number_or : Option ℤ → ℤ → ℤ
number_or none fallback = fallback
number_or (some (pos zero)) fallback = fallback
number_or (some (pos (suc n))) fallback = pos (suc n)
number_or (some (negsuc n)) fallback = negsuc n

abbrev pub page_options : PageQuery → PageOptions
page_options q = record {
  search = q.search;
  type = q.type;
  status = or_default q.status all;
  page = number_or q.page (pos 1);
  limit = number_or q.limit (pos 10);
}

module _ {S N : Type 0} (repo : CouponStore S N) where
  unfoldable pub update_coupon :
      String → String → UpdateCouponData N → Action S (UseCaseResult (Coupon N))
  update_coupon tenant id d = do
    found ← query (repo.find_by_id tenant id)
    or_throw found (entity_not_found_error "Coupon" id)
    updated ← repo.update tenant id d
    pure (success_of (some updated) "Coupon updated successfully")

  unfoldable pub delete_coupon : String → String → Action S (UseCaseResult (Unit {0}))
  delete_coupon tenant id = do
    found ← query (repo.find_by_id tenant id)
    or_throw found (entity_not_found_error "Coupon" id)
    repo.delete tenant id
    pure (success_of none "Coupon deleted successfully")

  unfoldable pub get_coupons : Option String → Bool → Action S (UseCaseResult (List (Coupon N)))
  get_coupons tenant active_only = do
    coupons ← query (if active_only then repo.find_active tenant else repo.find_all tenant)
    pure (success_of (some coupons) "Coupons retrieved successfully")

  unfoldable pub get_coupon_by_id : String → String → Action S (UseCaseResult (Coupon N))
  get_coupon_by_id tenant id = do
    found ← query (repo.find_by_id tenant id)
    coupon ← or_throw found (entity_not_found_error "Coupon" id)
    pure (success_of (some coupon) "Coupon retrieved successfully")

  unfoldable pub get_coupon_by_code : String → String → Action S (UseCaseResult (Coupon N))
  get_coupon_by_code tenant code = do
    found ← query (repo.find_by_code tenant code)
    coupon ← or_throw found (entity_not_found_error "Coupon" code)
    pure (success_of (some coupon) "Coupon retrieved successfully")

  unfoldable pub get_coupons_paginated :
      Option String → PageQuery → Action S (UseCaseResult (List (Coupon N)))
  get_coupons_paginated tenant q = do
    page ← query (repo.find_all_paginated tenant (page_options q))
    pure (success_of (some page.coupons) "Coupons retrieved successfully")

  unfoldable pub get_coupon_stats : String → Action S (UseCaseResult CouponStats)
  get_coupon_stats tenant = do
    stats ← query (repo.get_stats tenant)
    pure (success_of (some stats) "Coupon stats retrieved successfully")
