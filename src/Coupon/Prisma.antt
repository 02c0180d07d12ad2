-- ===== src/Coupon/Prisma.antt =====
-- infrastructure/database/prisma/coupon.prisma-repository.ts, over a Prisma client that is a
-- parameter. A `where` is a test on rows; `upper` is `toUpperCase`.
pub mod Laws
pub mod Uses
use mathlib.Core.Option
use api_neutra_v.Prelude.{
  ℕ, suc, Bool, true, false, not, ◌&&◌, ◌||◌, String, Option, none, some, List, [], map, str_eq,
  truthy, present, or_default, if◌then◌else◌,
}
use api_neutra_v.Prelude.Int.{ℤ, pos, negsuc, scale, ◌-ℤ◌, ltb_ℤ, leb_ℤ}
use api_neutra_v.Errors.{Thrown, not_found_handler, duplicate_handler}
use api_neutra_v.Runtime.{Result, ok, err, Time, Action, ◌>>=◌, pure, query, rethrow, returns, ask}
use api_neutra_v.Coupon.{CouponType, percent, fixed, Coupon, CreateCouponData, DateInput}
use api_neutra_v.Coupon.Create.{Clock, to_date}
use api_neutra_v.Coupon.Change.{
  UpdateCouponData, StatusFilter, active, expired, used, unused, all, TypeFilter, of_type, any_type,
  PageOptions, CouponPage, CouponStats, CouponStore,
}

pub record CouponRow (N : Type 0) : Type 0 where
  pub tenant_id : String
  pub coupon : Coupon N

-- The columns of a new coupon. An invalid date is `none`.
pub record CouponColumns (N : Type 0) : Type 0 where
  pub tenant_id : String
  pub code : String
  pub type : CouponType
  pub value : N
  pub description : Option String
  pub min_purchase_amount : Option N
  pub max_discount_amount : Option N
  pub usage_limit : Option ℤ
  pub active : Bool
  pub expires_at : Option Time
  pub applicable_products : List String
  pub applicable_categories : List String
  pub applicable_services : List String

-- The columns that an update writes.
pub record CouponChanges (N : Type 0) : Type 0 where
  pub code : Option String
  pub type : Option CouponType
  pub value : Option N
  pub description : Option String
  pub min_purchase_amount : Option N
  pub max_discount_amount : Option N
  pub usage_limit : Option ℤ
  pub active : Option Bool
  pub expires_at : Option (Option Time)
  pub applicable_products : Option (List String)
  pub applicable_categories : Option (List String)

-- Lists are ordered by the instant of creation, the latest first. `contains` ignores the case.
pub record CouponClient (DB N : Type 0) : Type 0 where
  pub contains : String → String → Bool
  pub find_many : (CouponRow N → Bool) → DB → Result (List (CouponRow N))
  pub find_page : (CouponRow N → Bool) → ℤ → ℤ → DB → Result (List (CouponRow N))
  pub find_first : (CouponRow N → Bool) → DB → Result (Option (CouponRow N))
  pub count : (CouponRow N → Bool) → DB → Result ℕ
  pub create : CouponColumns N → Action DB (CouponRow N)
  pub update : String → String → CouponChanges N → Action DB (CouponRow N)
  pub delete : String → String → Action DB (CouponRow N)
  pub increment : String → String → Action DB (CouponRow N)

abbrev pub new_row :
    {N : Type 0} → (String → String) → Clock → String → CreateCouponData N → CouponColumns N
new_row upper clock tenant d = record {
  tenant_id = tenant;
  code = upper d.code;
  type = d.type;
  value = d.value;
  description = d.description;
  min_purchase_amount = d.min_purchase_amount;
  max_discount_amount = d.max_discount_amount;
  usage_limit = d.usage_limit;
  active = or_default d.active true;
  expires_at = elim d.expires_at [ none ↦ none | some given ↦ to_date clock given ];
  applicable_products = or_default d.applicable_products [];
  applicable_categories = or_default d.applicable_categories [];
  applicable_services = or_default d.applicable_services [];
}

abbrev pub changes : {N : Type 0} → (String → String) → Clock → UpdateCouponData N → CouponChanges N
changes upper clock d = record {
  code = Option.map upper d.code;
  type = d.type;
  value = d.value;
  description = d.description;
  min_purchase_amount = d.min_purchase_amount;
  max_discount_amount = d.max_discount_amount;
  usage_limit = d.usage_limit;
  active = d.active;
  expires_at = Option.map (to_date clock) d.expires_at;
  applicable_products = d.applicable_products;
  applicable_categories = d.applicable_categories;
}

-- `...(tenantId && { tenantId })`
abbrev pub of_tenant : {N : Type 0} → Option String → CouponRow N → Bool
of_tenant tenant r = not (present tenant) || str_eq r.tenant_id (or_default tenant "")

abbrev pub is_coupon : {N : Type 0} → String → String → CouponRow N → Bool
is_coupon tenant id r = str_eq r.coupon.id id && str_eq r.tenant_id tenant

abbrev pub has_code : {N : Type 0} → String → String → CouponRow N → Bool
has_code tenant code r = str_eq r.tenant_id tenant && str_eq r.coupon.code code

abbrev same_type : CouponType → CouponType → Bool
same_type percent percent = true
same_type percent fixed = false
same_type fixed percent = false
same_type fixed fixed = true

abbrev pub of_status : {N : Type 0} → Time → StatusFilter → Coupon N → Bool
of_status now active c = c.active && leb_ℤ now c.expires_at
of_status now expired c = ltb_ℤ c.expires_at now
of_status now used c = ltb_ℤ (pos 0) c.usage_count
of_status now unused c = leb_ℤ c.usage_count (pos 0) && leb_ℤ (pos 0) c.usage_count
of_status now all c = true

abbrev has_type : {N : Type 0} → Option TypeFilter → Coupon N → Bool
has_type none c = true
has_type (some any_type) c = true
has_type (some (of_type t)) c = same_type t c.type

abbrev times : ℤ → ℤ → ℤ
times (pos n) z = scale n z
times (negsuc n) z = pos 0 -ℤ scale (suc n) z

-- P2025, or else P2002.
abbrev pub update_handler : String → String → Thrown → Thrown
update_handler id code e = duplicate_handler "Coupon" "code" code (not_found_handler "Coupon" id e)

abbrev pub coupon_of : {N : Type 0} → CouponRow N → Coupon N
coupon_of r = r.coupon

module _ {DB N : Type 0} (client : CouponClient DB N) (upper : String → String)
    (clock : Clock) where
  abbrev searched : Option String → String → Bool
  searched none code = true
  searched (some s) code = not (truthy s) || client.contains (upper s) code

  abbrev pub page_where : Option String → PageOptions → CouponRow N → Bool
  page_where tenant o r =
      of_tenant tenant r
      && searched o.search r.coupon.code
      && has_type o.type r.coupon
      && of_status clock.now o.status r.coupon

  unfoldable pub find_by_id : String → String → DB → Result (Option (Coupon N))
  find_by_id tenant id db = ask (Option.map coupon_of) (client.find_first (is_coupon tenant id) db)

  unfoldable pub find_by_code : String → String → DB → Result (Option (Coupon N))
  find_by_code tenant code db =
      ask (Option.map coupon_of) (client.find_first (has_code tenant (upper code)) db)

  unfoldable pub find_active : Option String → DB → Result (List (Coupon N))
  find_active tenant db =
      ask (map coupon_of)
        (client.find_many (λ r. of_tenant tenant r && of_status clock.now active r.coupon) db)

  abbrev page_of : Result (List (CouponRow N)) → Result ℕ → Result (CouponPage N)
  page_of (err e) total = err e
  page_of (ok coupons) (err e) = err e
  page_of (ok coupons) (ok total) = ok (record { coupons = map coupon_of coupons; total = total })

  unfoldable pub find_all_paginated : Option String → PageOptions → DB → Result (CouponPage N)
  find_all_paginated tenant o db =
      page_of (client.find_page (page_where tenant o) (times (o.page -ℤ pos 1) o.limit) o.limit db)
        (client.count (page_where tenant o) db)

  unfoldable pub create : String → CreateCouponData N → Action DB (Coupon N)
  create tenant d =
      rethrow (duplicate_handler "Coupon" "code" d.code)
        (returns coupon_of (client.create (new_row upper clock tenant d)))

  unfoldable pub update : String → String → UpdateCouponData N → Action DB (Coupon N)
  update tenant id d =
      rethrow (update_handler id (or_default d.code ""))
        (returns coupon_of (client.update id tenant (changes upper clock d)))

  unfoldable pub delete : String → String → Action DB (Unit {0})
  delete tenant id =
      rethrow (not_found_handler "Coupon" id) (returns (λ _. tt) (client.delete id tenant))

  unfoldable pub increment_usage : String → String → Action DB (Unit {0})
  increment_usage tenant id = returns (λ _. tt) (client.increment id tenant)

  abbrev counted : String → (Coupon N → Bool) → Action DB ℕ
  counted tenant p = query (client.count (λ r. str_eq r.tenant_id tenant && p r.coupon))

  abbrev stats : String → Action DB CouponStats
  stats tenant = do
    every ← counted tenant (λ _. true)
    usable ← counted tenant (of_status clock.now active)
    redeemed ← counted tenant (of_status clock.now used)
    fresh ← counted tenant (of_status clock.now unused)
    gone ← counted tenant (of_status clock.now expired)
    pure (record {
      total_coupons = every;
      active_coupons = usable;
      used_coupons = redeemed;
      unused_coupons = fresh;
      expired_coupons = gone;
    })

  unfoldable pub get_stats : String → DB → Result CouponStats
  get_stats tenant db = (stats tenant db).0

  abbrev pub coupon_repository : CouponStore DB N
  coupon_repository = record {
    find_all = λ tenant db. ask (map coupon_of) (client.find_many (of_tenant tenant) db);
    find_by_id = find_by_id;
    find_by_code = find_by_code;
    find_active = find_active;
    find_all_paginated = find_all_paginated;
    create = create;
    update = update;
    delete = delete;
    increment_usage = increment_usage;
    get_stats = get_stats;
  }
