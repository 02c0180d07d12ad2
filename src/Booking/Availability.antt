-- ===== src/Booking/Availability.antt =====
-- core/application/booking/get-availability.use-case.ts: the free slots of a staff member's day.
pub mod Laws
use api_neutra_v.Prelude.{
  ℕ, zero, suc, ◌+◌, ◌*◌, ◌/◌, ◌%◌, ◌-◌, Bool, true, false, not, ◌&&◌, ◌||◌, String, Option, none,
  some, List, [], ◌∷◌, ◌<>◌, filter, any, get_or, truthy, ltb, if◌then◌else◌,
}
use api_neutra_v.Prelude.Int.{ℤ, pos, ◌+ℤ◌, ◌-ℤ◌, scale, ltb_ℤ, leb_ℤ}
use api_neutra_v.Errors.{validation_error, entity_not_found_error}
use api_neutra_v.Runtime.{
  Time, Action, ◌>>=◌, ◌>>◌, pure, query, throw_if, or_throw, UseCaseResult, success_of,
}
use api_neutra_v.Booking.Entity.{
  AppointmentStatus, cancelled, no_show, Appointment, AppointmentRepository, BookingServices,
  Service,
}
use api_neutra_v.Booking.Interval.{plus_minutes}

pub record GetAvailabilityData : Type 0 where
  pub staff_id : String
  pub service_id : String
  pub date : String
  pub timezone_offset : Option String

-- `new Date(text)`, `setHours(0, 0, 0, 0)` in the time zone of the process, `Number(text)`, and the
-- present instant.
pub record Calendar : Type 0 where
  pub now : Time
  pub parse : String → Option Time
  pub midnight : Time → Time
  pub number : String → ℤ

-- Working hours and the interval, in minutes of the day.
abbrev pub work_start : ℕ
work_start = 9 * 60

abbrev pub work_end : ℕ
work_end = 17 * 60

abbrev pub interval : ℕ
interval = 30

abbrev digit : ℕ → String
digit n = get_or ("0" ∷ "1" ∷ "2" ∷ "3" ∷ "4" ∷ "5" ∷ "6" ∷ "7" ∷ "8" ∷ "9" ∷ []) n ""

-- `n.toString().padStart(2, "0")` below 100.
abbrev two_digits : ℕ → String
two_digits n = digit (n / 10) <> digit (n % 10)

unfoldable pub label : ℕ → String
label m = two_digits (m / 60) <> ":" <> two_digits (m % 60)

-- `a.status !== "CANCELLED" && a.status !== "NO_SHOW"`
abbrev pub is_open : AppointmentStatus → Bool
is_open cancelled = false
is_open no_show = false
is_open _ = true

-- What the loop reads: local midnight, the offset, the duration, the instant and the bookings.
pub record Day (N : Type 0) : Type 0 where
  pub midnight : Time
  pub offset : ℤ
  pub duration : ℤ
  pub now : Time
  pub bookings : List (Appointment N)

module _ {N : Type 0} where
  -- The instants of the slot that begins `m` minutes after local midnight.
  unfoldable pub slot_start : Day N → ℕ → Time
  slot_start day m = plus_minutes (plus_minutes day.midnight (pos m)) day.offset

  unfoldable pub slot_end : Day N → ℕ → Time
  slot_end day m = plus_minutes (slot_start day m) day.duration

  unfoldable pub local_end : Day N → ℕ → Time
  local_end day m = plus_minutes (plus_minutes day.midnight (pos m)) day.duration

  unfoldable pub end_of_work : Day N → Time
  end_of_work day = plus_minutes day.midnight (pos work_end)

  abbrev pub overlap : Time → Time → Appointment N → Bool
  overlap start end a = ltb_ℤ start a.end_time && ltb_ℤ a.start_time end

  -- One round of the loop pushes its slot.
  unfoldable pub offered : Day N → ℕ → Bool
  offered day m =
      not (ltb_ℤ (slot_start day m) day.now)
      && (leb_ℤ (local_end day m) (end_of_work day)
          && not (any (overlap (slot_start day m) (slot_end day m)) day.bookings))

  -- `while (currentSlot < endWorkTime)`, with a round for each half hour.
  unfoldable pub slots_from : ℕ → Day N → ℕ → List String
  slots_from zero day m = []
  slots_from (suc fuel) day m =
      let rest = slots_from fuel day (m + interval) in
      let kept = if offered day m then label m ∷ rest else rest in
      if ltb m work_end then kept else []

-- Seventeen rounds are enough for eight hours, the last of them for the test that ends the loop.
abbrev pub rounds : ℕ
rounds = 17

abbrev pub window_start : Time → Time
window_start midnight = midnight -ℤ pos 86400000

abbrev pub window_end : Time → Time
window_end midnight = midnight +ℤ pos (86400000 + 86400000 - 1)

abbrev offset_of : (String → ℤ) → Option String → ℤ
offset_of number none = pos 0
offset_of number (some s) = if truthy s then number s else pos 0

module _ {S N : Type 0} (repo : AppointmentRepository S N) (services : BookingServices S N) where
  unfoldable pub get_availability :
      Calendar → String → GetAvailabilityData → Action S (UseCaseResult (List String))
  get_availability calendar tenant d = do
    throw_if (not (truthy d.staff_id) || (not (truthy d.service_id) || not (truthy d.date)))
        (validation_error "Missing required parameters: staffId, serviceId, date")
    found ← query (services.find_service tenant d.service_id)
    service ← or_throw found (entity_not_found_error "Service" d.service_id)
    member ← query (services.find_staff tenant d.staff_id)
    or_throw member (entity_not_found_error "Staff" d.staff_id)
    target ← or_throw (calendar.parse d.date) (validation_error "Invalid Date")
    let midnight = calendar.midnight target
    appointments ← query (
        repo.find_by_staff tenant d.staff_id (some (window_start midnight))
          (some (window_end midnight)))
    pure (
        success_of
          (some (
            slots_from rounds
              (record {
                midnight = midnight;
                offset = offset_of calendar.number d.timezone_offset;
                duration = service.duration;
                now = calendar.now;
                bookings = filter (λ a. is_open a.status) appointments;
              })
              work_start))
          "")
