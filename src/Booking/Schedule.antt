-- ===== src/Booking/Schedule.antt =====
-- No double booking: the use case `create_appointment` over the Prisma repository.
use api_neutra_v.Prelude.{
  true, ◌≡◌, refl, sym, ◌∙◌, subst, String, Option, none, some, List, All, arith, Bool-cases,
  Option-cases, inl, inr, truthy,
}
use api_neutra_v.Prelude.Int.{ℤ, pos, negsuc, +ℤ_parts, ◌<ℤ◌, scale}
use api_neutra_v.Runtime.{Time, ok, outcome, answer}
use api_neutra_v.Runtime.Number.{Number}
use api_neutra_v.Coupon.{Coupon, CouponRepository}
use api_neutra_v.Coupon.Validate.{check_coupon, validate_coupon, ValidateCouponData}
use api_neutra_v.Booking.Entity.{
  Appointment, AppointmentCreateData, Pricing, BookingServices, Service, enabled, Job,
  AppointmentRepository,
}
use api_neutra_v.Booking.Create.{
  CreateAppointmentData, apply_coupon, price_of, check_slot, approval, coupon_request, valid_result,
  new_data, announce, create_appointment,
}
use api_neutra_v.Booking.Interval.{plus_minutes}
use api_neutra_v.Booking.Prisma.{new_row, create, appointment_repository}
use api_neutra_v.Booking.Prisma.Database.{AppointmentRow, Client, IsClient}
use api_neutra_v.Booking.Prisma.Laws.{IsFree, IsSchedule, IsSchedule-cons, check_availability_iff}

-- A service of positive duration gives a slot of positive length.
plus_minutes-lt : (t : Time) (m : ℤ) → pos 0 <ℤ m → t <ℤ plus_minutes t m
unfolding plus_minutes scale
plus_minutes-lt t (pos m) h = ground (arith, +ℤ_parts t (scale 60000 (pos m)))
plus_minutes-lt t (negsuc m) h = absurd (omega arith)

-- Reading alone happens when a coupon is validated.
check_coupon_keeps :
    {S N : Type 0} (num : Number N) (now : Time) (d : ValidateCouponData N) (c : Coupon N) (s : S)
    → (check_coupon num now d c s).1 ≡ s
unfolding check_coupon
check_coupon_keeps num now d c s = ground arith

validate_coupon_keeps :
    {S N : Type 0} (num : Number N) (repo : CouponRepository S N) (now : Time) (tenant : String)
    (d : ValidateCouponData N) (s : S)
    → (validate_coupon num repo now tenant d s).1 ≡ s
unfolding validate_coupon
validate_coupon_keeps num repo now tenant d s = elim (answer (repo.find_by_code tenant d.code s)) [
  | inr (e, failed) ↦ ground (arith, failed)
  | inl (none, found) ↦ ground (arith, found)
  | inl (some c, found) ↦ ground (arith, found, check_coupon_keeps num now d c s)
]

module _ {S N : Type 0} (num : Number N) (repo : AppointmentRepository S N)
    (services : BookingServices S N) (coupons : CouponRepository S N) where
  -- The guards before the booking write nothing, and leave a free slot of an offered, active
  -- service.
  pub check_slot_keeps :
      (tenant : String) (d : CreateAppointmentData) (s : S)
      → (check_slot num repo services coupons tenant d s).1 ≡ s
  unfolding check_slot
  check_slot_keeps tenant d s = ground arith

  pub check_slot_sound :
      (tenant : String) (d : CreateAppointmentData) (s s' : S) (sv : Service N) (start : Time)
      → check_slot num repo services coupons tenant d s ≡ (ok (sv, start), s')
      → (services.find_service tenant d.service_id s ≡ ok (some sv))
        × (sv.active ≡ true)
        × (repo.check_availability tenant d.staff_id start (plus_minutes start sv.duration) none s
            ≡ ok true)
        × (d.start_time ≡ some start)
  unfolding check_slot
  check_slot_sound tenant d s s' sv start h =
      (ground arith, ground arith, ground arith, ground arith)

  -- A function of the store that counting a use of a coupon does not change.
  module _ {X : Type 0} (view : S → X)
      (uses : (tenant id : String) (s : S)
        → view (coupons.increment_usage tenant id s).1 ≡ view s) where
    apply_coupon_keeps :
        (now : Time) (tenant : String) (sv : Service N) (code : String) (s : S)
        → view (apply_coupon num repo services coupons now tenant sv code s).1 ≡ view s
    unfolding apply_coupon
    apply_coupon_keeps now tenant sv code s =
        let kept = validate_coupon_keeps num coupons now tenant (coupon_request sv code) s in
        elim (outcome (validate_coupon num coupons now tenant (coupon_request sv code) s)) [
          | inr (e, s₁, failed) ↦ ground (arith, failed, kept)
          | inl (r, s₁, valid) ↦ elim (Option-cases (valid_result r)) [
            | inl bad ↦ ground (arith, valid, kept, bad)
            | inr (v, good) ↦ ground (arith, valid, kept, good, uses tenant v.coupon.id s)
          ]
        ]

    pub price_of_keeps :
        (now : Time) (tenant : String) (sv : Service N) (code : Option String) (s : S)
        → view (price_of num repo services coupons now tenant sv code s).1 ≡ view s
    unfolding price_of
    price_of_keeps now tenant sv none s = refl
    price_of_keeps now tenant sv (some code) s = elim (Bool-cases (truthy code)) [
      | inl e ↦ rw (e, price_of) (apply_coupon_keeps now tenant sv code s)
      | inr e ↦ rw (e, price_of) refl
    ]

-- What the booking relies on beside the appointments' client: a service that is found has the
-- duration that the database has for it, and that is positive; counting a coupon's use and sending a
-- notification change neither appointments nor durations.
pub record IsBookingContext {DB N : Type 0} (client : Client DB N)
    (rows : DB → List (AppointmentRow N)) (services : BookingServices DB N)
    (coupons : CouponRepository DB N) : Type 0 where
  pub duration :
      (tenant id : String) (db : DB) (sv : Service N)
      → services.find_service tenant id db ≡ ok (some sv)
      → (client.find_duration id db ≡ ok (some sv.duration)) × (pos 0 <ℤ sv.duration)
  pub uses_rows :
      (tenant id : String) (db : DB) → rows (coupons.increment_usage tenant id db).1 ≡ rows db
  pub uses_durations :
      (service tenant id : String) (db : DB)
      → client.find_duration service (coupons.increment_usage tenant id db).1
        ≡ client.find_duration service db
  pub enqueue_rows :
      (queue : String) (job : Job) (db : DB) → rows (services.enqueue queue job db).1 ≡ rows db

module _ {DB N : Type 0} (num : Number N) (client : Client DB N)
    (rows : DB → List (AppointmentRow N)) (laws : IsClient client rows)
    (services : BookingServices DB N) (coupons : CouponRepository DB N)
    (context : IsBookingContext client rows services coupons) where
  abbrev pub prisma_repository : AppointmentRepository DB N
  prisma_repository = appointment_repository num client

  pub announce_keeps :
      (tenant : String) (origin : Option String) (a : Appointment N) (db : DB)
      → rows (announce num prisma_repository services coupons tenant origin a db).1 ≡ rows db
  unfolding announce
  announce_keeps tenant origin a db = elim (answer (services.get_tenant_feature_status tenant db)) [
    | inr (e, failed) ↦ ground (arith, failed)
    | inl (features, found) ↦ elim (Bool-cases (enabled "EMAIL_NOTIFICATIONS" features)) [
      | inl on ↦
          ground
            (arith, found, on, context.enqueue_rows "notifications" (approval tenant origin a) db)
      | inr off ↦ ground (arith, found, off)
    ]
  ]

  -- The repository's `create`, in a slot that is free, keeps the schedule.
  create-IsSchedule :
      (tenant : String) (d : AppointmentCreateData N) (duration : ℤ) (db : DB)
      → client.find_duration d.service_id db ≡ ok (some duration)
      → pos 0 <ℤ duration
      → All (IsFree tenant d.staff_id d.start_time (plus_minutes d.start_time duration)) (rows db)
      → IsSchedule (rows db)
      → IsSchedule (rows (create num client tenant d db).1)
  unfolding create
  create-IsSchedule tenant d duration db known positive free h =
      let row = new_row num client tenant d duration in
      elim (outcome (client.create row db)) [
        | inr (e, db₁, failed) ↦
            let kept : rows db₁ ≡ rows db = rw failed at (laws.create_lem row db) in
            let after : rows (create num client tenant d db).1 ≡ rows db₁ =
              ground (arith, known, failed) in
            subst IsSchedule (sym (after ∙ kept)) h
        | inl (r, db₁, made) ↦
            let (created, grown) = rw made at (laws.create_lem row db) in
            let after : rows (create num client tenant d db).1 ≡ rows db₁ =
              ground (arith, known, made) in
            subst IsSchedule (sym (after ∙ grown)) (
              IsSchedule-cons row r (rows db) created
                (plus_minutes-lt d.start_time duration positive) free h)
      ]

  -- The last two calls of the use case leave the rows that the repository's `create` leaves.
  after_create :
      (now : Time) (tenant : String) (d : CreateAppointmentData) (origin : Option String)
      (db db₂ : DB) (sv : Service N) (start : Time) (p : Pricing N)
      → check_slot num prisma_repository services coupons tenant d db ≡ (ok (sv, start), db)
      → price_of num prisma_repository services coupons now tenant sv d.coupon_code db ≡ (ok p, db₂)
      → rows (create_appointment num prisma_repository services coupons now tenant d origin db).1
        ≡ rows
            (create num client tenant
              (new_data num prisma_repository services coupons d start p)
              db₂).1
  unfolding create_appointment
  after_create now tenant d origin db db₂ sv start p passed priced =
      let row = new_data num prisma_repository services coupons d start p in
      elim (outcome (create num client tenant row db₂)) [
        | inr (e, db₃, failed) ↦ ground (arith, passed, priced, failed)
        | inl (a, db₃, made) ↦
            ground (arith, passed, priced, made, announce_keeps tenant origin a db₃)
      ]

  -- A slot that was found free is booked.
  book-IsSchedule :
      (now : Time) (tenant : String) (d : CreateAppointmentData) (origin : Option String) (db : DB)
      (sv : Service N) (start : Time)
      → check_slot num prisma_repository services coupons tenant d db ≡ (ok (sv, start), db)
      → IsSchedule (rows db)
      → IsSchedule (
          rows (create_appointment num prisma_repository services coupons now tenant d origin db).1)
  unfolding create_appointment
  book-IsSchedule now tenant d origin db sv start passed h =
      let (found, _, free, _) =
        check_slot_sound num prisma_repository services coupons tenant d db db sv start passed in
      let (known, positive) = context.duration tenant d.service_id db sv found in
      let end = plus_minutes start sv.duration in
      let apart =
        (check_availability_iff client rows laws num tenant d.staff_id start end db
            (plus_minutes-lt start sv.duration positive) h.0).0
          free in
      let kept =
        price_of_keeps num prisma_repository services coupons rows context.uses_rows now tenant sv
          d.coupon_code db in
      let lasting =
        price_of_keeps num prisma_repository services coupons (client.find_duration d.service_id)
          (context.uses_durations d.service_id) now tenant sv d.coupon_code db in
      elim (outcome
        (price_of num prisma_repository services coupons now tenant sv d.coupon_code db)) [
          | inr (e, db₂, failed) ↦
              let same : rows db
                  ≡ rows
                      (create_appointment num prisma_repository services coupons now tenant d origin
                        db).1 =
                ground (arith, passed, failed, kept) in
              subst IsSchedule same h
          | inl (p, db₂, priced) ↦
              let same : rows db ≡ rows db₂ = ground (arith, priced, kept) in
              subst IsSchedule
                (sym (after_create now tenant d origin db db₂ sv start p passed priced))
                (create-IsSchedule tenant
                  (new_data num prisma_repository services coupons d start p) sv.duration db₂
                  (ground (arith, priced, lasting, known)) positive
                  (subst (λ rs. All (IsFree tenant d.staff_id start end) rs) same apart)
                  (subst IsSchedule same h))
        ]

  -- No double booking: when the active rows of each staff member are apart and have a positive
  -- length, they are so after `create_appointment`, whether it returns or throws.
  pub create_appointment-IsSchedule :
      (now : Time) (tenant : String) (d : CreateAppointmentData) (origin : Option String) (db : DB)
      → IsSchedule (rows db)
      → IsSchedule (
          rows (create_appointment num prisma_repository services coupons now tenant d origin db).1)
  unfolding create_appointment
  create_appointment-IsSchedule now tenant d origin db h =
      let kept = check_slot_keeps num prisma_repository services coupons tenant d db in
      elim (outcome (check_slot num prisma_repository services coupons tenant d db)) [
        | inr (e, db₁, failed) ↦
            let same : rows db
                ≡ rows
                    (create_appointment num prisma_repository services coupons now tenant d origin
                      db).1 =
              ground (arith, failed, kept) in
            subst IsSchedule same h
        | inl ((sv, start), db₁, passed) ↦
            book-IsSchedule now tenant d origin db sv start (ground (arith, passed, kept)) h
      ]
