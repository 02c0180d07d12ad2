-- ===== src/Booking/Entity.antt =====
-- core/entities/appointment.entity.ts, service.entity.ts and staff.entity.ts, and the interfaces
-- of core/repositories and core/providers that the booking use cases call.
use api_neutra_v.Prelude.{Bool, true, false, String, Option, List, [], ◌∷◌, str_eq, if◌then◌else◌}
use api_neutra_v.Prelude.Int.{ℤ}
use api_neutra_v.Runtime.{Time, Action, Result}

pub data AppointmentStatus : Type 0 where
  pending confirmed in_progress completed cancelled no_show : AppointmentStatus

pub record UserRef : Type 0 where
  pub id : String
  pub name : String
  pub email : String
  pub phone : Option String
  pub push_token : Option String

pub record ServiceRef (N : Type 0) : Type 0 where
  pub id : String
  pub name : String
  pub duration : ℤ
  pub price : N

pub record StaffRef : Type 0 where
  pub id : String
  pub name : String
  pub email : Option String
  pub avatar : Option String

pub record CouponRef (N : Type 0) : Type 0 where
  pub id : String
  pub code : String
  pub type : String
  pub value : N

pub record Appointment (N : Type 0) : Type 0 where
  pub id : String
  pub user_id : String
  pub service_id : String
  pub staff_id : String
  pub start_time : Time
  pub end_time : Time
  pub status : AppointmentStatus
  pub notes : Option String
  pub cancellation_reason : Option String
  pub confirmation_sent : Bool
  pub reminder_sent : Bool
  pub tenant_id : String
  pub created_at : Time
  pub updated_at : Time
  pub coupon_id : Option String
  pub discount_amount : N
  pub subtotal : N
  pub total : N
  pub user : Option UserRef
  pub service : Option (ServiceRef N)
  pub staff : Option StaffRef
  pub coupon : Option (CouponRef N)

abbrev pub is_cancellable : AppointmentStatus → Bool
is_cancellable pending = true
is_cancellable confirmed = true
is_cancellable _ = false

abbrev pub is_modifiable : AppointmentStatus → Bool
is_modifiable completed = false
is_modifiable cancelled = false
is_modifiable _ = true

abbrev pub has_started : AppointmentStatus → Bool
has_started in_progress = true
has_started completed = true
has_started _ = false

abbrev pub status_text : AppointmentStatus → String
status_text pending = "PENDING"
status_text confirmed = "CONFIRMED"
status_text in_progress = "IN_PROGRESS"
status_text completed = "COMPLETED"
status_text cancelled = "CANCELLED"
status_text no_show = "NO_SHOW"

-- What the use case adds to the data of a new appointment.
pub record Pricing (N : Type 0) : Type 0 where
  pub coupon_id : Option String
  pub discount_amount : N
  pub subtotal : N
  pub total : N

-- The request's data with the pricing. The interface's type does not name the pricing; the object
-- that is passed has it.
pub record AppointmentCreateData (N : Type 0) : Type 0 where
  pub pricing : Pricing N
  pub user_id : String
  pub service_id : String
  pub staff_id : String
  pub start_time : Time
  pub notes : Option String
  pub coupon_code : Option String

pub record AppointmentUpdateData : Type 0 where
  pub start_time : Option Time
  pub service_id : Option String
  pub staff_id : Option String
  pub status : Option AppointmentStatus
  pub notes : Option String
  pub cancellation_reason : Option String

pub record AppointmentFilters : Type 0 where
  pub user_id : Option String
  pub staff_id : Option String
  pub service_id : Option String
  pub status : Option AppointmentStatus
  pub start_date : Option Time
  pub end_date : Option Time

-- `IAppointmentRepository`, over a store `S`. The reads do not write.
pub record AppointmentRepository (S N : Type 0) : Type 0 where
  pub create : String → AppointmentCreateData N → Action S (Appointment N)
  pub find_by_id : String → String → Bool → S → Result (Option (Appointment N))
  pub find_all : Option String → AppointmentFilters → S → Result (List (Appointment N))
  pub find_by_user : String → String → S → Result (List (Appointment N))
  pub find_by_staff :
      String → String → Option Time → Option Time → S → Result (List (Appointment N))
  pub update : String → String → AppointmentUpdateData → Action S (Appointment N)
  pub update_status : String → String → AppointmentStatus → Action S (Appointment N)
  pub delete : String → String → Action S (Unit {0})
  pub check_availability : String → String → Time → Time → Option String → S → Result Bool

pub record Service (N : Type 0) : Type 0 where
  pub id : String
  pub name : String
  pub description : Option String
  pub duration : ℤ
  pub price : N
  pub category_id : Option String
  pub active : Bool
  pub tenant_id : String

pub record Staff : Type 0 where
  pub id : String
  pub user_id : Option String
  pub name : String
  pub email : Option String
  pub active : Bool
  pub tenant_id : String

-- The payload of a notification.
pub record Job : Type 0 where
  pub type : String
  pub appointment_id : String
  pub tenant_id : String
  pub origin : Option String
  pub reason : Option String

-- What the booking use cases call of the other repositories and of the queue.
pub record BookingServices (S N : Type 0) : Type 0 where
  pub find_service : String → String → S → Result (Option (Service N))
  pub find_staff : String → String → S → Result (Option Staff)
  pub get_services : String → String → S → Result (List String)
  pub get_tenant_feature_status : String → S → Result (List (String × Bool))
  pub enqueue : String → Job → Action S (Unit {0})

-- `features[key]` as a test; a missing key is false.
abbrev pub enabled : String → List (String × Bool) → Bool
enabled key [] = false
enabled key ((k, on) ∷ fs) = if str_eq k key then on else enabled key fs
