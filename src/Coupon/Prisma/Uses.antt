-- ===== src/Coupon/Prisma/Uses.antt =====
-- How often a coupon can be used: the count of the repository and the test of validate-coupon.
use mathlib.Core.Option
use api_neutra_v.Prelude.{
  ℕ, zero, suc, ◌+◌, ◌≤◌, ◌≡◌, inl, inr, refl, ap, ◌∙◌, true, String, some, List, find, find_holds,
  found_after, Bool-cases, arith,
}
use api_neutra_v.Prelude.Int.{ℤ, pos, ◌+ℤ◌, int_laws}
use api_neutra_v.Errors.Http.{http_status_from_domain_error}
use api_neutra_v.Errors.Middleware.{error_middleware}
use api_neutra_v.Runtime.{ok, Time, Action, ◌>>◌, pure, Refuses}
use api_neutra_v.Runtime.Number.{Number}
use api_neutra_v.Coupon.{Coupon, CouponRepository, is_expired, has_reached_usage_limit}
use api_neutra_v.Coupon.Create.{Clock}
use api_neutra_v.Coupon.Validate.{ValidateCouponData, check_coupon, validate_coupon}
use api_neutra_v.Coupon.Change.{core}
use api_neutra_v.Coupon.Prisma.{
  CouponRow, CouponClient, is_coupon, has_code, coupon_of, coupon_repository, find_by_code,
  increment_usage,
}
use api_neutra_v.Coupon.Prisma.Laws.{IsCouponClient, by_code}

-- With the limit reached, the chain of guards ends with one of three violations of a rule.
refused :
    {S N : Type 0} (num : Number N) (repo : CouponRepository S N) (now : Time) (tenant : String)
    (d : ValidateCouponData N) (c : Coupon N) (s : S)
    → repo.find_by_code tenant d.code s ≡ ok (some c)
    → has_reached_usage_limit c ≡ true
    → Refuses 422 s (validate_coupon num repo now tenant d s)
unfolding validate_coupon check_coupon error_middleware http_status_from_domain_error
refused num repo now tenant d c s found used = elim (Bool-cases c.active) [
  | inr off ↦ rw (found, off) (refl, refl)
  | inl on ↦ elim (Bool-cases (is_expired now c)) [
    | inl late ↦ rw (found, on, late) (refl, refl)
    | inr early ↦ rw (found, on, early, used) (refl, refl)
  ]
]

module _ {DB N : Type 0} (client : CouponClient DB N) (upper : String → String) (clock : Clock)
    (rows : DB → List (CouponRow N)) (is : IsCouponClient client rows) where
  -- `incrementUsage`, n times.
  abbrev pub uses : ℕ → String → String → Action DB (Unit {0})
  uses zero tenant id = pure tt
  uses (suc n) tenant id = increment_usage client upper clock tenant id >> uses n tenant id

  -- The row of a code, with what was counted.
  pub record IsUsed (n : ℕ) (tenant code : String) (old r : CouponRow N) (db : DB) : Type 0 where
    pub found : find (has_code tenant (upper code)) (rows db) ≡ some r
    pub limit : r.coupon.usage_limit ≡ old.coupon.usage_limit
    pub count : r.coupon.usage_count ≡ old.coupon.usage_count +ℤ pos n

  increment_returns :
      (tenant id : String) (r : CouponRow N) (db db' : DB)
      → client.increment id tenant db ≡ (ok r, db')
      → increment_usage client upper clock tenant id db ≡ (ok tt, db')
  unfolding increment_usage
  increment_returns tenant id r db db' h = ground (arith, h)

  keeps_code :
      (tenant id code : String) (old r : CouponRow N)
      → has_code tenant code old ≡ true
      → is_coupon tenant id r ≡ true
      → r.coupon.code ≡ old.coupon.code
      → has_code tenant code r ≡ true
  keeps_code tenant id code old r h k same = rw same (ground (arith, h, k))

  add_one : (a : ℤ) (n : ℕ) → (a +ℤ pos 1) +ℤ pos n ≡ a +ℤ pos (suc n)
  add_one a n = grind int_laws

  add_none : (a : ℤ) → a ≡ a +ℤ pos zero
  add_none a = grind int_laws

  uses_lem :
      (n : ℕ) (tenant id code : String) (old : CouponRow N) (db : DB)
      → find (has_code tenant (upper code)) (rows db) ≡ some old
      → is_coupon tenant id old ≡ true
      → (db' : DB) × (r : CouponRow N) × (uses n tenant id db ≡ (ok tt, db'))
        × IsUsed n tenant code old r db'
  uses_lem zero tenant id code old db there mine = (
    db,
    old,
    refl,
    record { found = there; limit = refl; count = add_none old.coupon.usage_count },
  )
  uses_lem (suc n) tenant id code old db there mine =
      let p = has_code tenant (upper code) in
      let (r, db₁, wrote, still, code_kept, limit_kept, counted, table) =
        is.increment_lem p tenant id old db there mine in
      let fits =
        keeps_code tenant id (upper code) old r (find_holds p (rows db) old there) still
          code_kept in
      let there₁ : find p (rows db₁) ≡ some r =
        ap (find p) table ∙ found_after p (is_coupon tenant id) r old (rows db) fits mine there in
      let (db', q, ran, used) = uses_lem n tenant id code r db₁ there₁ still in
      let first = increment_returns tenant id r db db₁ wrote in
      (
        db',
        q,
        ground (arith, first, ran),
        record {
          found = used.found;
          limit = used.limit ∙ limit_kept;
          count = used.count ∙ ap (λ a. a +ℤ pos n) counted ∙ add_one old.coupon.usage_count n;
        },
      )

  sum_pos : (a n : ℕ) → pos a +ℤ pos n ≡ pos (a + n)
  sum_pos a n = grind int_laws

  over_limit :
      (m a n : ℕ) (c : Coupon N)
      → c.usage_limit ≡ some (pos m)
      → c.usage_count ≡ pos a +ℤ pos n
      → m ≤ a + n
      → has_reached_usage_limit c ≡ true
  over_limit m a n c limit count h = rw (limit, count, sum_pos a n) (ground (arith, h))

  -- A coupon with a limit of m uses that was used a times accepts no more once it was used n times
  -- more and a + n is m or greater: the n calls of the repository succeed, and from then on its
  -- validation is refused with 422, in capital and small letters alike.
  pub limit_enforced :
      (num : Number N) (now : Time) (m a n : ℕ) (tenant id code : String) (old : CouponRow N)
      (d : ValidateCouponData N) (db : DB)
      → find (has_code tenant (upper code)) (rows db) ≡ some old
      → is_coupon tenant id old ≡ true
      → old.coupon.usage_limit ≡ some (pos m)
      → old.coupon.usage_count ≡ pos a
      → upper d.code ≡ upper code
      → m ≤ a + n
      → (db' : DB) × (uses n tenant id db ≡ (ok tt, db'))
        × Refuses 422 db'
            (validate_coupon num (core (coupon_repository client upper clock)) now tenant d db')
  limit_enforced num now m a n tenant id code old d db there mine limit count spelled enough =
      let (db', r, ran, used) = uses_lem n tenant id code old db there mine in
      let found : find_by_code client upper clock tenant d.code db' ≡ ok (some r.coupon) =
        by_code client upper clock rows is tenant d.code db'
        ∙ ap (λ k. ok (Option.map coupon_of (find (has_code tenant k) (rows db')))) spelled
        ∙ ap (λ o. ok (Option.map coupon_of o)) used.found in
      (
        db',
        ran,
        refused num (core (coupon_repository client upper clock)) now tenant d r.coupon db' found (
            over_limit m a n r.coupon (used.limit ∙ limit) (used.count ∙ ap (λ z. z +ℤ pos n) count)
              enough),
      )
