-- ===== src/Tests/Store.antt =====
-- A store in memory: a list of appointment rows, one service, one staff member and one coupon. It
-- meets what is assumed of the database.
use api_neutra_v.Prelude.{
  ℕ, true, false, ◌≡◌, refl, ap, subst, String, Option, none, some, List, [], ◌∷◌, filter, find,
  map, or_default, arith, if◌then◌else◌,
}
use api_neutra_v.Prelude.Int.{ℤ, pos, ◌<ℤ◌}
use api_neutra_v.Errors.{prisma}
use api_neutra_v.Runtime.{Result, ok, err, Action}
use api_neutra_v.Coupon.{Coupon, percent, CouponRepository}
use api_neutra_v.Booking.Entity.{BookingServices, Service, Staff}
use api_neutra_v.Booking.Prisma.Database.{
  AppointmentRow, RowCreate, RowUpdate, Client, is_at, Updated, IsClient,
}
use api_neutra_v.Booking.Schedule.{IsBookingContext}

abbrev pub Rows : Type 0
Rows = List (AppointmentRow ℕ)

abbrev pub row_of : RowCreate ℕ → AppointmentRow ℕ
row_of d = record {
  id = "a1";
  user_id = d.user_id;
  service_id = d.service_id;
  staff_id = d.staff_id;
  start_time = d.start_time;
  end_time = d.end_time;
  status = d.status;
  notes = d.notes;
  cancellation_reason = none;
  confirmation_sent = false;
  reminder_sent = false;
  tenant_id = d.tenant_id;
  created_at = pos 0;
  updated_at = pos 0;
  coupon_id = d.coupon_id;
  discount_amount = d.discount_amount;
  subtotal = d.subtotal;
  total = d.total;
  user = none;
  service = none;
  staff = none;
  coupon = none;
}

abbrev changed : RowUpdate → AppointmentRow ℕ → AppointmentRow ℕ
changed u r = record r {
  start_time = or_default u.start_time r.start_time;
  end_time = or_default u.end_time r.end_time;
  service_id = or_default u.service_id r.service_id;
  staff_id = or_default u.staff_id r.staff_id;
  status = or_default u.status r.status;
}

abbrev pub write :
    String → String → RowUpdate → Option (AppointmentRow ℕ) → Action Rows (AppointmentRow ℕ)
write id tenant u none db = (err (prisma "P2025" none "Record to update not found."), db)
write id tenant u (some old) db =
    (ok (changed u old), map (λ x. if is_at id tenant x then changed u old else x) db)

abbrev pub client : Client Rows ℕ
client = record {
  find_first = λ p db. ok (find p db);
  find_many = λ p db. ok (filter p db);
  find_many_by_start = λ p db. ok (filter p db);
  create = λ d db. (ok (row_of d), row_of d ∷ db);
  update = λ id tenant u db. write id tenant u (find (is_at id tenant) db) db;
  delete = λ id tenant db. (err (prisma "P2025" none ""), db);
  find_duration = λ id db. ok (some (pos 30));
}

abbrev pub rows : Rows → Rows
rows db = db

write-Updated :
    (id tenant : String) (u : RowUpdate) (db : Rows) (o : Option (AppointmentRow ℕ))
    → find (is_at id tenant) db ≡ o
    → Updated rows id tenant u db (write id tenant u o db)
write-Updated id tenant u db none e = refl
write-Updated id tenant u db (some old) e = (
  old,
  e,
  record {
    id = refl;
    tenant = refl;
    staff = refl;
    start = refl;
    finish = refl;
    status = refl;
    total = refl;
  },
  refl,
)

pub client-IsClient : IsClient client rows
client-IsClient = record {
  find_first_lem = λ p db. refl;
  find_many_lem = λ p db. refl;
  create_lem = λ d db. (
    record {
      tenant = refl;
      user = refl;
      service = refl;
      staff = refl;
      start = refl;
      finish = refl;
      status = refl;
      coupon_id = refl;
      discount = refl;
      subtotal = refl;
      total = refl;
    },
    refl,
  );
  update_lem = λ id tenant u db. write-Updated id tenant u db (find (is_at id tenant) db) refl;
}

abbrev pub haircut : Service ℕ
haircut = record {
  id = "s1";
  name = "Haircut";
  description = none;
  duration = pos 30;
  price = 2000000;
  category_id = none;
  active = true;
  tenant_id = "t1";
}

abbrev pub ana : Staff
ana = record {
  id = "w1";
  user_id = none;
  name = "Ana";
  email = none;
  active = true;
  tenant_id = "t1";
}

abbrev pub services : BookingServices Rows ℕ
services = record {
  find_service = λ tenant id db. ok (some haircut);
  find_staff = λ tenant id db. ok (some ana);
  get_services = λ tenant id db. ok ("s1" ∷ []);
  get_tenant_feature_status = λ tenant db. ok (("EMAIL_NOTIFICATIONS", true) ∷ []);
  enqueue = λ queue job db. (ok tt, db);
}

-- Half off, for orders of 100 or more.
abbrev pub half_off : Coupon ℕ
half_off = record {
  id = "c1";
  code = "HALF";
  type = percent;
  value = 500000;
  description = none;
  min_purchase_amount = some 1000000;
  max_discount_amount = none;
  usage_limit = some (pos 10);
  usage_count = pos 3;
  active = true;
  expires_at = pos 1000;
  applicable_products = [];
  applicable_categories = [];
  applicable_services = [];
  created_at = pos 0;
  updated_at = pos 0;
}

abbrev pub coupons : {S : Type 0} → CouponRepository S ℕ
coupons = record {
  find_by_code = λ tenant code db. ok (some half_off);
  create = λ tenant d db. (ok half_off, db);
  increment_usage = λ tenant id db. (ok tt, db);
}

abbrev pub no_coupons : {S : Type 0} → CouponRepository S ℕ
no_coupons = record {
  find_by_code = λ tenant code db. ok none;
  create = λ tenant d db. (ok half_off, db);
  increment_usage = λ tenant id db. (ok tt, db);
}

haircut_duration :
    (sv : Service ℕ)
    → ◌≡◌ {A = Result (Option (Service ℕ))} (ok (some haircut)) (ok (some sv))
    → (◌≡◌ {A = Result (Option ℤ)} (ok (some (pos 30))) (ok (some sv.duration)))
      × (pos 0 <ℤ sv.duration)
haircut_duration sv e =
    let same : haircut ≡ sv = cc in
    let d : pos 30 ≡ sv.duration = ap (λ (s : Service ℕ). s.duration) same in
    (cc, subst (λ (z : ℤ). pos 0 <ℤ z) d (omega arith))

pub context : IsBookingContext client rows services coupons
context = record {
  duration = λ tenant id db sv e. haircut_duration sv e;
  uses_rows = λ tenant id db. refl;
  uses_durations = λ service tenant id db. refl;
  enqueue_rows = λ queue job db. refl;
}
