-- ===== src/Booking/Create.antt =====
-- core/application/booking/create-appointment.use-case.ts
use api_neutra_v.Prelude.{
  true, false, not, ◌||◌, String, Option, none, some, [], ◌∷◌, includes, truthy, if◌then◌else◌,
}
use api_neutra_v.Errors.{
  validation_error, entity_not_found_error, business_rule_violation_error,
  business_rule_violation_as, invalid_state_error,
}
use api_neutra_v.Runtime.{
  Time, Action, ◌>>=◌, ◌>>◌, pure, query, throw_if, or_throw, when, UseCaseResult, success_of,
}
use api_neutra_v.Runtime.Number.{Number}
use api_neutra_v.Coupon.{CouponRepository}
use api_neutra_v.Coupon.Validate.{ValidateCouponData, CouponValidationResult, validate_coupon}
use api_neutra_v.Booking.Entity.{
  Appointment, AppointmentCreateData, Pricing, AppointmentRepository, BookingServices, Service,
  Staff, Job, enabled,
}
use api_neutra_v.Booking.Interval.{plus_minutes}

-- The request: a missing text is the empty one.
pub record CreateAppointmentData : Type 0 where
  pub user_id : String
  pub service_id : String
  pub staff_id : String
  pub start_time : Option Time
  pub notes : Option String
  pub coupon_code : Option String

-- `!data.userId || !data.serviceId || !data.staffId || !data.startTime`, and the start otherwise.
abbrev pub complete : CreateAppointmentData → Option Time
complete d =
    if not (truthy d.user_id) || (not (truthy d.service_id) || not (truthy d.staff_id))
    then none
    else d.start_time

abbrev pub active_service : {N : Type 0} → Option (Service N) → Option (Service N)
active_service none = none
active_service (some s) = if s.active then some s else none

abbrev pub active_staff : Option Staff → Option Staff
active_staff none = none
active_staff (some s) = if s.active then some s else none

abbrev pub valid_value :
    {N : Type 0} → Option (CouponValidationResult N) → Option (CouponValidationResult N)
valid_value none = none
valid_value (some v) = if v.valid then some v else none

abbrev pub coupon_request : {N : Type 0} → Service N → String → ValidateCouponData N
coupon_request service code = record {
  code = code;
  order_total = service.price;
  product_ids = none;
  category_ids = none;
  service_ids = some (service.id ∷ []);
}

abbrev pub approval : {N : Type 0} → String → Option String → Appointment N → Job
approval tenant origin a = record {
  type = "PENDING_APPROVAL";
  appointment_id = a.id;
  tenant_id = tenant;
  origin = origin;
  reason = none;
}

-- `result.success && result.data?.valid`, and the data.
abbrev pub valid_result :
    {N : Type 0} → UseCaseResult (CouponValidationResult N) → Option (CouponValidationResult N)
valid_result r = if r.success then valid_value r.value else none

abbrev or_text : String → String → String
or_text s d = if truthy s then s else d

module _ {S N : Type 0} (num : Number N) (repo : AppointmentRepository S N)
    (services : BookingServices S N) (coupons : CouponRepository S N) where
  abbrev full_price : Service N → Pricing N
  full_price service = record {
    coupon_id = none;
    discount_amount = num.nought;
    subtotal = service.price;
    total = service.price;
  }

  abbrev not_below_nought : N → N
  not_below_nought total = if num.lt total num.nought then num.nought else total

  -- The branch for a coupon code: the coupon is validated, and one use of it is counted.
  unfoldable pub apply_coupon : Time → String → Service N → String → Action S (Pricing N)
  apply_coupon now tenant service code = do
    result ← validate_coupon num coupons now tenant (coupon_request service code)
    validation ← or_throw (valid_result result) (
        business_rule_violation_as (or_text result.message "The provided coupon is invalid")
          "INVALID_COUPON")
    coupons.increment_usage tenant validation.coupon.id
    pure (record {
      coupon_id = some validation.coupon.id;
      discount_amount = validation.discount_amount;
      subtotal = service.price;
      total = not_below_nought (num.sub service.price validation.discount_amount);
    })

  unfoldable pub price_of : Time → String → Service N → Option String → Action S (Pricing N)
  price_of now tenant service none s = pure (full_price service) s
  price_of now tenant service (some code) s = elim (truthy code) [
    | true ↦ apply_coupon now tenant service code s
    | false ↦ pure (full_price service) s
  ]

  -- The guards up to the check of the time slot, which give the service and the start.
  unfoldable pub check_slot : String → CreateAppointmentData → Action S (Service N × Time)
  check_slot tenant d = do
    start ← or_throw (complete d) (validation_error "Missing required fields")
    found ← query (services.find_service tenant d.service_id)
    service ← or_throw (active_service found) (entity_not_found_error "Service" d.service_id)
    member ← query (services.find_staff tenant d.staff_id)
    or_throw (active_staff member) (entity_not_found_error "Staff" d.staff_id)
    offered ← query (services.get_services tenant d.staff_id)
    throw_if (not (includes offered d.service_id)) (
        business_rule_violation_error
          "This staff member is not authorized to perform the selected service")
    free ←
        query (
          repo.check_availability tenant d.staff_id start (plus_minutes start service.duration)
            none)
    throw_if (not free) (invalid_state_error "The selected time slot is already booked")
    pure (service, start)

  abbrev pub new_data : CreateAppointmentData → Time → Pricing N → AppointmentCreateData N
  new_data d start p = record {
    pricing = p;
    user_id = d.user_id;
    service_id = d.service_id;
    staff_id = d.staff_id;
    start_time = start;
    notes = d.notes;
    coupon_code = d.coupon_code;
  }

  unfoldable pub announce : String → Option String → Appointment N → Action S (Unit {0})
  announce tenant origin a = do
    features ← query (services.get_tenant_feature_status tenant)
    when (enabled "EMAIL_NOTIFICATIONS" features)
        (services.enqueue "notifications" (approval tenant origin a))

  unfoldable pub create_appointment :
      Time
      → String
      → CreateAppointmentData
      → Option String
      → Action S (UseCaseResult (Appointment N))
  create_appointment now tenant d origin = do
    (service, start) ← check_slot tenant d
    pricing ← price_of now tenant service d.coupon_code
    appointment ← repo.create tenant (new_data d start pricing)
    announce tenant origin appointment
    pure
        (success_of (some appointment) "Appointment created successfully. Awaiting staff approval.")
