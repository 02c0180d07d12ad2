-- ===== src/Booking/Prisma.antt =====
-- infrastructure/database/prisma/appointment.prisma-repository.ts, over a Prisma client that is a
-- parameter.
pub mod Database
pub mod Laws
use mathlib.Core.Option
use api_neutra_v.Prelude.{
  Bool, true, false, not, ◌&&◌, ◌||◌, String, Option, none, some, List, map, str_eq, is_empty,
  truthy, present, is_some, or_else, if◌then◌else◌,
}
use api_neutra_v.Prelude.Int.{ℤ, leb_ℤ}
use api_neutra_v.Errors.{domain, entity_not_found_error, not_found_handler, duplicate_handler}
use api_neutra_v.Runtime.{
  Time, Result, ok, err, Action, ◌>>=◌, ◌>>◌, pure, query, or_throw, rethrow, returns, ask,
}
use api_neutra_v.Runtime.Number.{Number}
use api_neutra_v.Booking.Entity.{
  AppointmentStatus, pending, cancelled, no_show, status_text, Appointment, AppointmentCreateData,
  AppointmentUpdateData, AppointmentFilters, AppointmentRepository,
}
use api_neutra_v.Booking.Interval.{conflicts, plus_minutes}
use Database.{AppointmentRow, RowCreate, RowUpdate, Client, is_at}

abbrev pub is_active : AppointmentStatus → Bool
is_active cancelled = false
is_active no_show = false
is_active _ = true

-- `...(x && { field: x })`: no test where the text is absent or empty.
abbrev matches : Option String → String → Bool
matches none s = true
matches (some t) s = if truthy t then str_eq s t else true

abbrev matches_status : Option AppointmentStatus → AppointmentStatus → Bool
matches_status none s = true
matches_status (some t) s = str_eq (status_text s) (status_text t)

abbrev within : Option Time → Option Time → Time → Bool
within (some from) (some to) t = leb_ℤ from t && leb_ℤ t to
within _ _ t = true

-- `...(excludeAppointmentId && { id: { not: excludeAppointmentId } })`
abbrev excluded : Option String → String → Bool
excluded none id = false
excluded (some x) id = truthy x && str_eq id x

abbrev no_filters : AppointmentFilters
no_filters = record {
  user_id = none;
  staff_id = none;
  service_id = none;
  status = none;
  start_date = none;
  end_date = none;
}

module _ {N : Type 0} where
  unfoldable pub map_to_entity : AppointmentRow N → Appointment N
  map_to_entity r = record {
    id = r.id;
    user_id = r.user_id;
    service_id = r.service_id;
    staff_id = r.staff_id;
    start_time = r.start_time;
    end_time = r.end_time;
    status = r.status;
    notes = r.notes;
    cancellation_reason = r.cancellation_reason;
    confirmation_sent = r.confirmation_sent;
    reminder_sent = r.reminder_sent;
    tenant_id = r.tenant_id;
    created_at = r.created_at;
    updated_at = r.updated_at;
    coupon_id = r.coupon_id;
    discount_amount = r.discount_amount;
    subtotal = r.subtotal;
    total = r.total;
    user = r.user;
    service = r.service;
    staff = r.staff;
    coupon = r.coupon;
  }

  -- The `where` of `findAll` and of `checkAvailability`.
  abbrev pub filtered : Option String → AppointmentFilters → AppointmentRow N → Bool
  filtered tenant f r =
      matches tenant r.tenant_id
      && matches f.user_id r.user_id
      && matches f.staff_id r.staff_id
      && matches f.service_id r.service_id
      && matches_status f.status r.status
      && within f.start_date f.end_date r.start_time

  abbrev pub is_conflicting :
      String → String → Time → Time → Option String → AppointmentRow N → Bool
  is_conflicting tenant staff start end exclude r =
      str_eq r.tenant_id tenant
      && (str_eq r.staff_id staff && is_active r.status)
      && (conflicts start end r.start_time r.end_time && not (excluded exclude r.id))

module _ {DB N : Type 0} (num : Number N) (client : Client DB N) where
  -- `data` of the new row: the coupon and the amounts are not taken from the request.
  abbrev pub new_row : String → AppointmentCreateData N → ℤ → RowCreate N
  new_row tenant d duration = record {
    tenant_id = tenant;
    user_id = d.user_id;
    service_id = d.service_id;
    staff_id = d.staff_id;
    start_time = d.start_time;
    end_time = plus_minutes d.start_time duration;
    notes = d.notes;
    status = pending;
    coupon_id = none;
    discount_amount = num.nought;
    subtotal = num.nought;
    total = num.nought;
  }

  unfoldable pub create : String → AppointmentCreateData N → Action DB (Appointment N)
  create tenant d = do
    found ← query (client.find_duration d.service_id)
    duration ← or_throw found (entity_not_found_error "Service" d.service_id)
    rethrow (duplicate_handler "Appointment" "id" "")
        (returns map_to_entity (client.create (new_row tenant d duration)))

  unfoldable pub find_by_id : String → String → Bool → DB → Result (Option (Appointment N))
  find_by_id tenant id include_relations db =
      ask (Option.map map_to_entity) (client.find_first (is_at id tenant) db)

  unfoldable pub find_all : Option String → AppointmentFilters → DB → Result (List (Appointment N))
  find_all tenant f db = ask (map map_to_entity) (client.find_many_by_start (filtered tenant f) db)

  unfoldable pub find_by_user : String → String → DB → Result (List (Appointment N))
  find_by_user tenant user = find_all (some tenant) (record no_filters { user_id = some user })

  unfoldable pub find_by_staff :
      String → String → Option Time → Option Time → DB → Result (List (Appointment N))
  find_by_staff tenant staff from to =
      find_all (some tenant)
        (record no_filters { staff_id = some staff; start_date = from; end_date = to })

  unfoldable pub update_status : String → String → AppointmentStatus → Action DB (Appointment N)
  update_status tenant id status = rethrow (not_found_handler "Appointment" id) (
      returns map_to_entity (
        client.update id tenant (record {
          start_time = none;
          end_time = none;
          service_id = none;
          staff_id = none;
          status = some status;
          notes = none;
          cancellation_reason = none;
        })))

  -- The service and the start that count for the new end: the given ones, or the row's.
  row_service : String → DB → Result (Option String)
  row_service id db =
      ask (Option.map (λ r. r.service_id)) (client.find_first (λ r. str_eq r.id id) db)

  row_start : String → DB → Result (Option Time)
  row_start id db =
      ask (Option.map (λ r. r.start_time)) (client.find_first (λ r. str_eq r.id id) db)

  -- What is known of the service's duration and of the start gives the new end.
  abbrev end_of : Option ℤ → Option Time → Option Time
  end_of (some duration) (some start) = some (plus_minutes start duration)
  end_of _ _ = none

  -- The end that an update computes; `none` leaves the old one.
  new_end : String → AppointmentUpdateData → Action DB (Option Time)
  unfolding row_service row_start
  new_end id d s = elim (is_some d.start_time || present d.service_id) [
    | false ↦ (ok none, s)
    | true ↦
        (do
          service ←
              query (λ db. if present d.service_id then ok d.service_id else row_service id db)
          duration ← query (λ db. elim service [
            | none ↦ ok none
            | some sv ↦ if truthy sv then client.find_duration sv db else ok none
          ])
          start ← query (λ db. if is_some d.start_time then ok d.start_time else row_start id db)
          pure (end_of duration start))
          s
  ]

  unfoldable pub update : String → String → AppointmentUpdateData → Action DB (Appointment N)
  unfolding new_end
  update tenant id d = do
    end ← new_end id d
    rethrow (λ e. duplicate_handler "Appointment" "id" "" (not_found_handler "Appointment" id e))
        (returns map_to_entity (
          client.update id tenant (record {
            start_time = d.start_time;
            end_time = end;
            service_id = d.service_id;
            staff_id = d.staff_id;
            status = d.status;
            notes = d.notes;
            cancellation_reason = d.cancellation_reason;
          })))

  unfoldable pub delete : String → String → Action DB (Unit {0})
  delete tenant id =
      rethrow (not_found_handler "Appointment" id) (returns (λ _. tt) (client.delete id tenant))

  unfoldable pub check_availability :
      String → String → Time → Time → Option String → DB → Result Bool
  check_availability tenant staff start end exclude db =
      ask is_empty (client.find_many (is_conflicting tenant staff start end exclude) db)

  -- The repository of the interface.
  abbrev pub appointment_repository : AppointmentRepository DB N
  appointment_repository = record {
    create = create;
    find_by_id = find_by_id;
    find_all = find_all;
    find_by_user = find_by_user;
    find_by_staff = find_by_staff;
    update = update;
    update_status = update_status;
    delete = delete;
    check_availability = check_availability;
  }
