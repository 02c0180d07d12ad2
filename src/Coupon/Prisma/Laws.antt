-- ===== src/Coupon/Prisma/Laws.antt =====
-- What the coupon repository finds again: infrastructure/database/prisma/coupon.prisma-repository.ts.
use mathlib.Core.Option
use api_neutra_v.Prelude.{
  ◌≡◌, inl, inr, refl, ap, sym, ◌∙◌, Bool, true, String, Option, none, some, List, [], ◌∷◌, ◌++◌,
  map, find, find-append, str_eq, str_eq_iff, if◌then◌else◌, arith,
}
use api_neutra_v.Prelude.Int.{pos, ◌+ℤ◌}
use api_neutra_v.Runtime.{ok, ok-injective, ask, UseCaseResult, success_of, outcome}
use api_neutra_v.Runtime.Number.{Number}
use api_neutra_v.Coupon.{Coupon, CreateCouponData}
use api_neutra_v.Coupon.Create.{Clock, create_coupon}
use api_neutra_v.Coupon.Created.{create_coupon_sound}
use api_neutra_v.Coupon.Change.{core, get_coupon_by_code}
use api_neutra_v.Coupon.Prisma.{
  CouponRow, CouponColumns, CouponClient, is_coupon, has_code, coupon_of, new_row,
  coupon_repository, find_by_code, create,
}

-- The documented behaviour of the client: `rows` is the table. An id belongs to one row.
pub record IsCouponClient {DB N : Type 0} (client : CouponClient DB N)
    (rows : DB → List (CouponRow N)) : Type 0 where
  pub find_lem : (p : CouponRow N → Bool) (db : DB) → client.find_first p db ≡ ok (find p (rows db))
  pub create_lem :
      (d : CouponColumns N) (r : CouponRow N) (db db' : DB)
      → client.create d db ≡ (ok r, db')
      → (r.tenant_id ≡ d.tenant_id) × (r.coupon.code ≡ d.code) × (rows db' ≡ rows db ++ (r ∷ []))
  pub increment_lem :
      (p : CouponRow N → Bool) (tenant id : String) (old : CouponRow N) (db : DB)
      → find p (rows db) ≡ some old
      → is_coupon tenant id old ≡ true
      → (r : CouponRow N) × (db' : DB) × (client.increment id tenant db ≡ (ok r, db'))
        × (is_coupon tenant id r ≡ true)
        × (r.coupon.code ≡ old.coupon.code)
        × (r.coupon.usage_limit ≡ old.coupon.usage_limit)
        × (r.coupon.usage_count ≡ old.coupon.usage_count +ℤ pos 1)
        × (rows db' ≡ map (λ x. if is_coupon tenant id x then r else x) (rows db))

pub str_eq_refl : (s : String) → str_eq s s ≡ true
str_eq_refl s = (str_eq_iff s s).1 refl

module _ {DB N : Type 0} (client : CouponClient DB N) (upper : String → String) (clock : Clock)
    (rows : DB → List (CouponRow N)) (is : IsCouponClient client rows) where
  pub by_code :
      (tenant code : String) (db : DB)
      → find_by_code client upper clock tenant code db
        ≡ ok (Option.map coupon_of (find (has_code tenant (upper code)) (rows db)))
  unfolding find_by_code
  by_code tenant code db =
      ap (ask (Option.map coupon_of)) (is.find_lem (has_code tenant (upper code)) db)

  created :
      (tenant : String) (d : CreateCouponData N) (c : Coupon N) (db db' : DB)
      → create client upper clock tenant d db ≡ (ok c, db')
      → (r : CouponRow N) × (client.create (new_row upper clock tenant d) db ≡ (ok r, db'))
        × (r.coupon ≡ c)
  unfolding create
  created tenant d c db db' h = elim (outcome (client.create (new_row upper clock tenant d) db)) [
    | inr (e, db₁, failed) ↦ absurd (ground (arith, failed, h))
    | inl (r, db₁, made) ↦ (r, ground (arith, made, h), ground (arith, made, h))
  ]

  unseen : (o : Option (CouponRow N)) → Option.map coupon_of o ≡ none → o ≡ none
  unseen none h = refl
  unseen (some r) h = absurd (ground (arith, h))

  -- A coupon that was created is found by its code, in capital and small letters alike: a lookup
  -- with any code of the same capital letters answers the coupon that the creation returned.
  pub create_then_get :
      (num : Number N) (tenant code : String) (d : CreateCouponData N) (db db' : DB)
      (r : UseCaseResult (Coupon N))
      → create_coupon num (core (coupon_repository client upper clock)) clock tenant d db
        ≡ (ok r, db')
      → upper code ≡ upper d.code
      → (c : Coupon N) × (r.value ≡ some c)
        × (get_coupon_by_code (coupon_repository client upper clock) tenant code db'
            ≡ (ok (success_of (some c) "Coupon retrieved successfully"), db'))
  unfolding get_coupon_by_code
  create_then_get num tenant code d db db' r h same =
      let (t, sound, free, c, made, is_r) =
        create_coupon_sound num (core (coupon_repository client upper clock)) clock tenant d db db'
          r h in
      let (row, wrote, mine) = created tenant d c db db' made in
      let (owner, spelled, table) = is.create_lem (new_row upper clock tenant d) row db db' wrote in
      let none_there =
        unseen (find (has_code tenant (upper d.code)) (rows db))
          (ok-injective (sym (by_code tenant d.code db) ∙ free)) in
      let fits : has_code tenant (upper d.code) row ≡ true =
        rw (owner, spelled, str_eq_refl tenant) (str_eq_refl (upper d.code)) in
      let found : find_by_code client upper clock tenant code db' ≡ ok (some c) =
        by_code tenant code db'
        ∙ ap (λ k. ok (Option.map coupon_of (find (has_code tenant k) (rows db')))) same
        ∙ ap (λ t. ok (Option.map coupon_of (find (has_code tenant (upper d.code)) t))) table
        ∙ ap (λ o. ok (Option.map coupon_of o))
            (find-append (has_code tenant (upper d.code)) (rows db) row none_there fits)
        ∙ ap (λ x. ok (some x)) mine in
      (c, ap (λ (x : UseCaseResult (Coupon N)). x.value) is_r, ground (arith, found))
