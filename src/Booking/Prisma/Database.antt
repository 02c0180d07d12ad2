-- ===== src/Booking/Prisma/Database.antt =====
-- The rows and the calls of the Prisma client that the appointment repository makes, and their
-- documented behaviour. Prisma is a dependency: its calls are fields of a parameter.
use api_neutra_v.Prelude.{
  Bool, ◌&&◌, ◌≡◌, String, Option, some, List, ◌∷◌, filter, find, str_eq, map, or_default,
  if◌then◌else◌,
}
use api_neutra_v.Prelude.Int.{ℤ}
use api_neutra_v.Runtime.{Time, Result, ok, err, Action}
use api_neutra_v.Booking.Entity.{AppointmentStatus, UserRef, ServiceRef, StaffRef, CouponRef}

-- A row of `appointments`, with the relations that a query includes.
pub record AppointmentRow (N : Type 0) : Type 0 where
  pub id : String
  pub user_id : String
  pub service_id : String
  pub staff_id : String
  pub start_time : Time
  pub end_time : Time
  pub status : AppointmentStatus
  pub notes : Option String
  pub cancellation_reason : Option String
  pub confirmation_sent : Bool
  pub reminder_sent : Bool
  pub tenant_id : String
  pub created_at : Time
  pub updated_at : Time
  pub coupon_id : Option String
  pub discount_amount : N
  pub subtotal : N
  pub total : N
  pub user : Option UserRef
  pub service : Option (ServiceRef N)
  pub staff : Option StaffRef
  pub coupon : Option (CouponRef N)

-- `data` of `appointment.create` and of `appointment.update`.
pub record RowCreate (N : Type 0) : Type 0 where
  pub tenant_id : String
  pub user_id : String
  pub service_id : String
  pub staff_id : String
  pub start_time : Time
  pub end_time : Time
  pub notes : Option String
  pub status : AppointmentStatus
  pub coupon_id : Option String
  pub discount_amount : N
  pub subtotal : N
  pub total : N

pub record RowUpdate : Type 0 where
  pub start_time : Option Time
  pub end_time : Option Time
  pub service_id : Option String
  pub staff_id : Option String
  pub status : Option AppointmentStatus
  pub notes : Option String
  pub cancellation_reason : Option String

pub record Client (DB N : Type 0) : Type 0 where
  pub find_first : (AppointmentRow N → Bool) → DB → Result (Option (AppointmentRow N))
  pub find_many : (AppointmentRow N → Bool) → DB → Result (List (AppointmentRow N))
  -- `findMany` with `orderBy: { startTime: "asc" }`
  pub find_many_by_start : (AppointmentRow N → Bool) → DB → Result (List (AppointmentRow N))
  pub create : RowCreate N → Action DB (AppointmentRow N)
  pub update : String → String → RowUpdate → Action DB (AppointmentRow N)
  pub delete : String → String → Action DB (AppointmentRow N)
  -- `service.findUnique` with `select: { duration: true }`
  pub find_duration : String → DB → Result (Option ℤ)

abbrev pub is_at : {N : Type 0} → String → String → AppointmentRow N → Bool
is_at id tenant r = str_eq r.id id && str_eq r.tenant_id tenant

-- A new row holds what was given; a changed row holds what was given and keeps the rest.
pub record IsCreated {N : Type 0} (d : RowCreate N) (r : AppointmentRow N) : Type 0 where
  pub tenant : r.tenant_id ≡ d.tenant_id
  pub user : r.user_id ≡ d.user_id
  pub service : r.service_id ≡ d.service_id
  pub staff : r.staff_id ≡ d.staff_id
  pub start : r.start_time ≡ d.start_time
  pub finish : r.end_time ≡ d.end_time
  pub status : r.status ≡ d.status
  pub coupon_id : r.coupon_id ≡ d.coupon_id
  pub discount : r.discount_amount ≡ d.discount_amount
  pub subtotal : r.subtotal ≡ d.subtotal
  pub total : r.total ≡ d.total

pub record IsUpdated {N : Type 0} (u : RowUpdate) (old new : AppointmentRow N) : Type 0 where
  pub id : new.id ≡ old.id
  pub tenant : new.tenant_id ≡ old.tenant_id
  pub staff : new.staff_id ≡ or_default u.staff_id old.staff_id
  pub start : new.start_time ≡ or_default u.start_time old.start_time
  pub finish : new.end_time ≡ or_default u.end_time old.end_time
  pub status : new.status ≡ or_default u.status old.status
  pub total : new.total ≡ old.total

-- What a call that writes has done to the rows: nothing, if it threw.
abbrev pub Created :
    {DB N : Type 0}
    → (DB → List (AppointmentRow N))
    → RowCreate N
    → DB
    → Result (AppointmentRow N) × DB
    → Type 0
Created rows d db (ok r, db') = IsCreated d r × (rows db' ≡ r ∷ rows db)
Created rows d db (err e, db') = rows db' ≡ rows db

abbrev pub Updated :
    {DB N : Type 0}
    → (DB → List (AppointmentRow N))
    → String
    → String
    → RowUpdate
    → DB
    → Result (AppointmentRow N) × DB
    → Type 0
Updated {N = N} rows id tenant u db (ok r, db') =
    (old : AppointmentRow N) × (find (is_at id tenant) (rows db) ≡ some old)
    × IsUpdated u old r
    × (rows db' ≡ map (λ x. if is_at id tenant x then r else x) (rows db))
Updated rows id tenant u db (err e, db') = rows db' ≡ rows db

-- The documented behaviour that the theorems use, where the database answers.
pub record IsClient {DB N : Type 0} (client : Client DB N) (rows : DB → List (AppointmentRow N))
    : Type 0 where
  pub find_first_lem :
      (p : AppointmentRow N → Bool) (db : DB) → client.find_first p db ≡ ok (find p (rows db))
  pub find_many_lem :
      (p : AppointmentRow N → Bool) (db : DB) → client.find_many p db ≡ ok (filter p (rows db))
  pub create_lem : (d : RowCreate N) (db : DB) → Created rows d db (client.create d db)
  pub update_lem :
      (id tenant : String) (u : RowUpdate) (db : DB)
      → Updated rows id tenant u db (client.update id tenant u db)
