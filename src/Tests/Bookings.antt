-- ===== src/Tests/Bookings.antt =====
-- Bookings: runs, and the theorems at inputs.
use api_neutra_v.Prelude.{
  ℕ, true, ◌≡◌, ◌≢◌, ◌↔◌, refl, inl, inr, Option, none, some, List, [], ◌∷◌, map, filter, All,
  arith,
}
use api_neutra_v.Prelude.Int.{pos, negsuc, ◌+ℤ◌, scale}
use api_neutra_v.Errors.Http.{http_status_from_domain_error}
use api_neutra_v.Errors.Middleware.{error_middleware}
use api_neutra_v.Runtime.{ok, UseCaseResult, success_of, Refuses}
use api_neutra_v.Runtime.Number.{decimal}
use api_neutra_v.Coupon.Validate.{validate_coupon, check_coupon}
use api_neutra_v.Coupon.{calculate_discount}
use api_neutra_v.Booking.Entity.{
  pending, confirmed, in_progress, cancelled, Appointment, AppointmentRepository,
}
use api_neutra_v.Booking.Interval.{plus_minutes}
use api_neutra_v.Booking.Create.{
  CreateAppointmentData, create_appointment, apply_coupon, price_of, check_slot, announce,
}
use api_neutra_v.Booking.Status.{cancel_appointment, update_appointment_status}
use api_neutra_v.Booking.Lifecycle.{Step, by_update, update_appointment_status-Step}
use api_neutra_v.Booking.History.{
  Call, cancels, updates, after_calls, closed_forever, in_progress_unreachable,
}
use api_neutra_v.Booking.Moves.{status_of}
use api_neutra_v.Booking.Prisma.{
  map_to_entity, create, find_by_id, update, update_status, check_availability,
  appointment_repository,
}
use api_neutra_v.Booking.Prisma.Database.{AppointmentRow}
use api_neutra_v.Booking.Prisma.Laws.{IsFree, IsSchedule, check_availability_iff}
use api_neutra_v.Booking.Schedule.{create_appointment-IsSchedule}
use api_neutra_v.Booking.Availability.{
  Day, offered, slots_from, slot_start, slot_end, local_end, end_of_work, label, work_start,
}
use api_neutra_v.Booking.Availability.Laws.{IsOffered, offered_iff, slots_from_lem, half_hours}
use api_neutra_v.Tests.Store.{
  Rows, row_of, client, rows, client-IsClient, services, coupons, context,
}

booking : Unit {0}
unfolding create_appointment apply_coupon price_of check_slot announce validate_coupon check_coupon
    calculate_discount create check_availability plus_minutes scale ◌+ℤ◌ map_to_entity find_by_id
    update update_status cancel_appointment update_appointment_status
booking = tt

abbrev repo : AppointmentRepository Rows ℕ
repo = appointment_repository decimal client

-- A booking of the first half hour, and a row for it.
abbrev booked_row : AppointmentRow ℕ
booked_row = row_of (record {
  tenant_id = "t1";
  user_id = "u1";
  service_id = "s1";
  staff_id = "w1";
  start_time = pos 0;
  end_time = pos 1800000;
  notes = none;
  status = pending;
  coupon_id = none;
  discount_amount = 0;
  subtotal = 0;
  total = 0;
})

abbrev request : CreateAppointmentData
request = record {
  user_id = "u2";
  service_id = "s1";
  staff_id = "w1";
  start_time = some (pos 1800000);
  notes = none;
  coupon_code = some "HALF";
}

abbrev next_row : AppointmentRow ℕ
next_row = record booked_row { user_id = "u2"; start_time = pos 1800000; end_time = pos 3600000 }

abbrev answer_of : AppointmentRow ℕ → UseCaseResult (Appointment ℕ)
answer_of r =
    success_of (some (map_to_entity r)) "Appointment created successfully. Awaiting staff approval."

-- The same slot again is refused.
taken : Refuses 409 (booked_row ∷ []) (
    create_appointment decimal repo services coupons
      (pos 5)
      "t1"
      (record request { start_time = some (pos 1799999) })
      none
      (booked_row ∷ []))
unfolding booking error_middleware http_status_from_domain_error
taken = (refl, refl)

create_appointment-IsSchedule_example :
    IsSchedule
      (create_appointment decimal repo services coupons
        (pos 5)
        "t1"
        request
        none
        (booked_row ∷ [])).1
create_appointment-IsSchedule_example =
    create_appointment-IsSchedule decimal client rows client-IsClient services coupons context
      (pos 5) "t1" request none (booked_row ∷ []) ((omega arith, tt), (tt, tt))

check_availability_iff_example :
    (check_availability decimal client "t1" "w1" (pos 1799999) (pos 1800001) none (booked_row ∷ [])
      ≡ ok true)
    ↔ All (IsFree "t1" "w1" (pos 1799999) (pos 1800001)) (booked_row ∷ [])
check_availability_iff_example =
    check_availability_iff client rows client-IsClient decimal "t1" "w1" (pos 1799999) (pos 1800001)
      (booked_row ∷ []) (omega arith) (omega arith, tt)

-- A cancellation, and a confirmation of the booking.
abbrev cancelled_row : AppointmentRow ℕ
cancelled_row = record booked_row { status = cancelled }

abbrev confirmed_row : AppointmentRow ℕ
confirmed_row = record booked_row { status = confirmed }

cancelled_lem : cancel_appointment repo services "t1" "a1" none (booked_row ∷ []) ≡ (
  ok (success_of (some (map_to_entity cancelled_row)) "Appointment cancelled successfully"),
  cancelled_row ∷ [],
)
unfolding booking
cancelled_lem = refl

confirmed_lem :
    update_appointment_status repo services "t1" "a1" (some confirmed) none (booked_row ∷ []) ≡ (
      ok (
          success_of
            (some (map_to_entity confirmed_row))
            "Appointment status updated to CONFIRMED"),
      confirmed_row ∷ [],
    )
unfolding booking
confirmed_lem = refl

update_appointment_status-Step_example :
    (a : Appointment ℕ) × (repo.find_by_id "t1" "a1" true (booked_row ∷ []) ≡ ok (some a))
    × Step a.status confirmed
    × (b : Appointment ℕ) × ((repo.update_status "t1" "a1" confirmed (booked_row ∷ [])).0 ≡ ok b)
    × (◌≡◌ {A = Option (Appointment ℕ)} (some (map_to_entity confirmed_row)) (some b))
update_appointment_status-Step_example =
    update_appointment_status-Step repo services "t1" "a1" confirmed none (booked_row ∷ [])
      (confirmed_row ∷ [])
      (success_of (some (map_to_entity confirmed_row)) "Appointment status updated to CONFIRMED")
      confirmed_lem

no_early_start : ¬ (Step pending in_progress)
no_early_start (by_update c d e) = elim (e refl) [ inl x ↦ cc | inr x ↦ cc ]

found_pending :
    repo.find_by_id "t1" "a1" true (booked_row ∷ []) ≡ ok (some (map_to_entity booked_row))
unfolding booking
found_pending = refl

-- The start is refused, the confirmation and the cancellation work, and the last call is refused.
abbrev calls : List Call
calls =
    updates "t1" "a1" (some in_progress) none
    ∷ updates "t1" "a1" (some confirmed) none
    ∷ cancels "t1" "a1" none
    ∷ updates "t1" "a1" (some pending) none
    ∷ []

called :
    after_calls decimal client rows client-IsClient services context.enqueue_rows calls
      (booked_row ∷ [])
    ≡ cancelled_row ∷ []
unfolding booking
called = refl

in_progress_unreachable_example :
    status_of "t1" "a1" (
      after_calls decimal client rows client-IsClient services context.enqueue_rows calls
        (booked_row ∷ []))
    ≢ some in_progress
in_progress_unreachable_example =
    in_progress_unreachable decimal client rows client-IsClient services context.enqueue_rows "t1"
      "a1" calls (booked_row ∷ []) (λ e. cc)

closed_forever_example :
    status_of "t1" "a1" (
      after_calls decimal client rows client-IsClient services context.enqueue_rows calls
        (cancelled_row ∷ []))
    ≡ some cancelled
closed_forever_example =
    closed_forever decimal client rows client-IsClient services context.enqueue_rows "t1" "a1"
      cancelled calls (cancelled_row ∷ []) (inr refl) refl

-- 2:00 in the night before, seen from a day with bookings from 9:00 to 9:30.
abbrev day : Day ℕ
day = record {
  midnight = pos 0;
  offset = pos 0;
  duration = pos 60;
  now = negsuc 7199999;
  bookings =
      map_to_entity (record booked_row { start_time = pos 32400000; end_time = pos 34200000 }) ∷ [];
}

slots_test :
    slots_from 17 (record day { now = pos 52200000 }) work_start
    ≡ "14:30" ∷ "15:00" ∷ "15:30" ∷ "16:00" ∷ []
unfolding slots_from offered slot_start slot_end local_end end_of_work label booking
slots_test = refl

offered_iff_example : (offered day 570 ≡ true) ↔ IsOffered day 570
offered_iff_example = offered_iff day 570

slots_from_lem_example :
    slots_from 20 day work_start ≡ map label (filter (offered day) (half_hours 16 work_start))
slots_from_lem_example = slots_from_lem day 20 (omega arith)
