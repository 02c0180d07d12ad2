-- ===== src/Tests/CouponRows.antt =====
-- The coupon repository over a table with room for one coupon: runs, and the theorems at inputs.
use api_neutra_v.Prelude.{
  ℕ, ◌≡◌, refl, Bool, true, String, Option, none, some, List, [], ◌∷◌, ◌++◌, ap, sym, ◌∙◌, map,
  find, trim, utf16_length, str_eq, if◌then◌else◌, arith,
}
use api_neutra_v.Prelude.Int.{pos, ◌+ℤ◌}
use api_neutra_v.Errors.{prisma}
use api_neutra_v.Runtime.{ok, err, Action, ok-injective, success_of, Refuses}
use api_neutra_v.Runtime.Number.{decimal}
use api_neutra_v.Coupon.{Coupon, CreateCouponData}
use api_neutra_v.Coupon.Validate.{validate_coupon}
use api_neutra_v.Coupon.Create.{create_coupon, check_create}
use api_neutra_v.Coupon.Change.{core, get_coupon_by_code}
use api_neutra_v.Coupon.Prisma.{
  CouponRow, CouponColumns, CouponClient, is_coupon, coupon_repository, find_by_code, create,
}
use api_neutra_v.Coupon.Prisma.Laws.{IsCouponClient, create_then_get}
use api_neutra_v.Coupon.Prisma.Uses.{uses, limit_enforced}
use api_neutra_v.Tests.Store.{half_off}
use api_neutra_v.Tests.Coupons.{clock, new_coupon, order}

abbrev Table : Type 0
Table = Option (CouponRow ℕ)

abbrev rows : Table → List (CouponRow ℕ)
rows none = []
rows (some r) = r ∷ []

abbrev row_of : CouponColumns ℕ → CouponRow ℕ
row_of d = record {
  tenant_id = d.tenant_id;
  coupon = record half_off {
    code = d.code;
    type = d.type;
    value = d.value;
    usage_limit = d.usage_limit;
    usage_count = pos 0;
  };
}

abbrev counted : CouponRow ℕ → CouponRow ℕ
counted r = record r { coupon = record r.coupon { usage_count = r.coupon.usage_count +ℤ pos 1 } }

abbrev insert : CouponColumns ℕ → Action Table (CouponRow ℕ)
insert d none = (ok (row_of d), some (row_of d))
insert d (some r) = (err (prisma "P2002" (some "code") "unique constraint failed"), some r)

abbrev increment : String → String → Action Table (CouponRow ℕ)
increment id tenant none = (err (prisma "P2025" none "no record"), none)
increment id tenant (some r) =
    if is_coupon tenant id r
    then (ok (counted r), some (counted r))
    else (err (prisma "P2025" none "no record"), some r)

abbrev client : CouponClient Table ℕ
client = record {
  contains = λ needle text. str_eq needle text;
  find_many = λ p db. ok (rows db);
  find_page = λ p skip take db. ok (rows db);
  find_first = λ p db. ok (find p (rows db));
  count = λ p db. ok 0;
  create = insert;
  update = λ id tenant d db. (err (prisma "P2025" none "no record"), db);
  delete = λ id tenant db. (err (prisma "P2025" none "no record"), db);
  increment = increment;
}

made :
    (d : CouponColumns ℕ) (r : CouponRow ℕ) (db db' : Table)
    → insert d db ≡ (ok r, db')
    → (r.tenant_id ≡ d.tenant_id) × (r.coupon.code ≡ d.code) × (rows db' ≡ rows db ++ (r ∷ []))
made d r (some q) db' h = absurd (ground (arith, h))
made d r none db' h =
    let same : row_of d ≡ r = ok-injective (ap (λ x. x.0) h) in
    (
      ap (λ (x : CouponRow ℕ). x.tenant_id) (sym same),
      ap (λ (x : CouponRow ℕ). x.coupon.code) (sym same),
      ap (λ x. rows x.1) (sym h) ∙ ap (λ x. x ∷ []) same,
    )

one_more :
    (p : CouponRow ℕ → Bool) (tenant id : String) (old : CouponRow ℕ) (db : Table)
    → find p (rows db) ≡ some old
    → is_coupon tenant id old ≡ true
    → (r : CouponRow ℕ) × (db' : Table) × (increment id tenant db ≡ (ok r, db'))
      × (is_coupon tenant id r ≡ true)
      × (r.coupon.code ≡ old.coupon.code)
      × (r.coupon.usage_limit ≡ old.coupon.usage_limit)
      × (r.coupon.usage_count ≡ old.coupon.usage_count +ℤ pos 1)
      × (rows db' ≡ map (λ x. if is_coupon tenant id x then r else x) (rows db))
one_more p tenant id old none there mine = absurd (ground (arith, there))
one_more p tenant id old (some q) there mine =
    let same : q ≡ old = ground (arith, there) in
    let it : is_coupon tenant id q ≡ true = ap (is_coupon tenant id) same ∙ mine in
    (
      counted q,
      some (counted q),
      rw it refl,
      it,
      ap (λ (x : CouponRow ℕ). x.coupon.code) same,
      ap (λ (x : CouponRow ℕ). x.coupon.usage_limit) same,
      ap (λ (x : CouponRow ℕ). x.coupon.usage_count +ℤ pos 1) same,
      rw it refl,
    )

client-IsCouponClient : IsCouponClient client rows
client-IsCouponClient = record {
  find_lem = λ p db. refl;
  create_lem = made;
  increment_lem = one_more;
}

-- As far as the runs need it.
abbrev upper : String → String
upper s = if str_eq s "half" then "HALF" else s

abbrev one_use : CouponRow ℕ
one_use = record {
  tenant_id = "t1";
  coupon = record half_off { usage_limit = some (pos 1); usage_count = pos 0 };
}

limit_enforced_example :
    (db' : Table) × (uses client upper clock rows client-IsCouponClient 1 "t1" "c1" (some one_use)
      ≡ (ok tt, db'))
    × Refuses 422 db' (
        validate_coupon decimal
          (core (coupon_repository client upper clock))
          (pos 5)
          "t1"
          (record order { code = "half" })
          db')
limit_enforced_example =
    limit_enforced client upper clock rows client-IsCouponClient decimal (pos 5) 1 0 1 "t1" "c1"
      "HALF" one_use (record order { code = "half" }) (some one_use) refl refl refl refl refl
      (omega arith)

abbrev made_row : CouponRow ℕ
made_row = record {
  tenant_id = "t1";
  coupon = record half_off { value = 100000; usage_limit = none; usage_count = pos 0 };
}

abbrev half_coupon : CreateCouponData ℕ
half_coupon = record new_coupon { code = "half" }

created :
    create_coupon decimal (core (coupon_repository client upper clock)) clock "t1" half_coupon none
    ≡ (ok (success_of (some made_row.coupon) "Coupon created successfully"), some made_row)
unfolding create_coupon check_create trim utf16_length find_by_code create
created = refl

create_then_get_example :
    (c : Coupon ℕ) × (◌≡◌ {A = Option (Coupon ℕ)} (some made_row.coupon) (some c))
    × (get_coupon_by_code (coupon_repository client upper clock) "t1" "HALF" (some made_row)
        ≡ (ok (success_of (some c) "Coupon retrieved successfully"), some made_row))
create_then_get_example =
    create_then_get client upper clock rows client-IsCouponClient decimal "t1" "HALF" half_coupon
      none (some made_row) (success_of (some made_row.coupon) "Coupon created successfully") created
      refl
