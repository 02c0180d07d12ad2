-- ===== src/Booking/Status.antt =====
-- core/application/booking: cancel-appointment, update-appointment-status and delete-appointment.
use api_neutra_v.Prelude.{Bool, true, false, not, String, Option, none, some, ◌<>◌}
use api_neutra_v.Errors.{entity_not_found_error, invalid_state_as, business_rule_violation_error}
use api_neutra_v.Runtime.{
  Action, ◌>>=◌, ◌>>◌, pure, query, throw_if, or_throw, when, UseCaseResult, success_of,
}
use api_neutra_v.Booking.Entity.{
  AppointmentStatus, confirmed, in_progress, cancelled, Appointment, is_cancellable, is_modifiable,
  has_started, status_text, AppointmentRepository, BookingServices, enabled,
}

-- `status === IN_PROGRESS && !hasStarted(current)`
abbrev pub starts_early : AppointmentStatus → AppointmentStatus → Bool
starts_early in_progress current = not (has_started current)
starts_early _ current = false

-- The notification that a new status sends, if any.
abbrev pub notification_of : AppointmentStatus → Option String
notification_of confirmed = some "CONFIRMED"
notification_of cancelled = some "CANCELLED"
notification_of _ = none

module _ {S N : Type 0} (repo : AppointmentRepository S N) (services : BookingServices S N) where
  unfoldable pub cancel_appointment :
      String → String → Option String → Action S (UseCaseResult (Appointment N))
  cancel_appointment tenant id reason = do
    found ← query (repo.find_by_id tenant id true)
    appointment ← or_throw found (entity_not_found_error "Appointment" id)
    throw_if (not (is_cancellable appointment.status)) (
        invalid_state_as
          ("Appointment with status '" <> status_text appointment.status <> "' cannot be cancelled")
          "INVALID_STATUS_TRANSITION")
    updated ← repo.update tenant id (record {
      start_time = none;
      service_id = none;
      staff_id = none;
      status = some cancelled;
      notes = none;
      cancellation_reason = reason;
    })
    features ← query (services.get_tenant_feature_status tenant)
    when (enabled "EMAIL_NOTIFICATIONS" features) (
        services.enqueue "notifications" (record {
          type = "CANCELLED";
          appointment_id = id;
          tenant_id = tenant;
          origin = none;
          reason = reason;
        }))
    pure (success_of (some updated) "Appointment cancelled successfully")

  notify : String → String → Option String → Option String → Action S (Unit {0})
  notify tenant id origin none = pure tt
  notify tenant id origin (some type) = services.enqueue "notifications" (record {
    type = type;
    appointment_id = id;
    tenant_id = tenant;
    origin = origin;
    reason = none;
  })

  unfoldable pub update_appointment_status :
      String
      → String
      → Option AppointmentStatus
      → Option String
      → Action S (UseCaseResult (Appointment N))
  unfolding notify
  update_appointment_status tenant id requested origin = do
    status ← or_throw requested (business_rule_violation_error "Status is required")
    found ← query (repo.find_by_id tenant id true)
    appointment ← or_throw found (entity_not_found_error "Appointment" id)
    throw_if (not (is_modifiable appointment.status)) (
        invalid_state_as
          ("Appointment with status '" <> status_text appointment.status <> "' cannot be modified")
          "INVALID_STATUS_TRANSITION")
    throw_if (starts_early status appointment.status) (
        invalid_state_as
          ("Appointment cannot transition to IN_PROGRESS from '"
            <> status_text appointment.status
            <> "'")
          "INVALID_STATUS_TRANSITION")
    updated ← repo.update_status tenant id status
    features ← query (services.get_tenant_feature_status tenant)
    when (enabled "EMAIL_NOTIFICATIONS" features) (notify tenant id origin (notification_of status))
    pure (success_of (some updated) ("Appointment status updated to " <> status_text status))

  unfoldable pub delete_appointment : String → String → Action S (UseCaseResult (Unit {0}))
  delete_appointment tenant id = do
    found ← query (repo.find_by_id tenant id false)
    or_throw found (entity_not_found_error "Appointment" id)
    repo.delete tenant id
    pure (success_of none "Appointment deleted successfully")
