-- ===== src/Booking/Lifecycle.antt =====
-- The life of an appointment's status under the two use cases that change it.
use api_neutra_v.Prelude.{
  true, false, ◌≡◌, ◌≢◌, refl, ◌⊎◌, inl, inr, String, Option, none, some, arith, Bool-cases,
}
use api_neutra_v.Errors.Http.{http_status_from_domain_error}
use api_neutra_v.Errors.Middleware.{error_middleware}
use api_neutra_v.Runtime.{ok, UseCaseResult, answer, Refuses}
use api_neutra_v.Booking.Entity.{
  AppointmentStatus, pending, confirmed, in_progress, completed, cancelled, Appointment,
  is_cancellable, is_modifiable, AppointmentRepository, BookingServices, AppointmentUpdateData,
}
use api_neutra_v.Booking.Status.{starts_early, cancel_appointment, update_appointment_status}

-- A cancellation from PENDING or CONFIRMED; an update from any status but COMPLETED and CANCELLED,
-- and to IN_PROGRESS only from IN_PROGRESS or COMPLETED.
pub data Step : AppointmentStatus → AppointmentStatus → Type 0 where
  by_cancel :
      {from : AppointmentStatus} → (from ≡ pending) ⊎ (from ≡ confirmed) → Step from cancelled
  by_update :
      {from to : AppointmentStatus}
      → from ≢ completed
      → from ≢ cancelled
      → (to ≡ in_progress → (from ≡ in_progress) ⊎ (from ≡ completed))
      → Step from to

-- The fields that a cancellation writes.
abbrev pub cancellation : Option String → AppointmentUpdateData
cancellation reason = record {
  start_time = none;
  service_id = none;
  staff_id = none;
  status = some cancelled;
  notes = none;
  cancellation_reason = reason;
}

pub cancellable-cases :
    (s : AppointmentStatus) → is_cancellable s ≡ true → (s ≡ pending) ⊎ (s ≡ confirmed)
cancellable-cases pending h = inl refl
cancellable-cases s h = ground arith

pub update-Step :
    (from to : AppointmentStatus)
    → is_modifiable from ≡ true
    → starts_early to from ≡ false
    → Step from to
update-Step from to m e = by_update (ground arith) (ground arith) (early from to m e)
  where
    early :
        (from to : AppointmentStatus)
        → is_modifiable from ≡ true
        → starts_early to from ≡ false
        → to ≡ in_progress
        → (from ≡ in_progress) ⊎ (from ≡ completed)
    early in_progress to m e h = inl refl
    early from to m e h = ground arith

module _ {S N : Type 0} (repo : AppointmentRepository S N) (services : BookingServices S N) where
  -- When an update of the status returns, the appointment was found, its status may step to the
  -- requested one, and the repository wrote that status.
  pub update_appointment_status-Step :
      (tenant id : String) (status : AppointmentStatus) (origin : Option String) (s s' : S)
      (r : UseCaseResult (Appointment N))
      → update_appointment_status repo services tenant id (some status) origin s ≡ (ok r, s')
      → (a : Appointment N) × (repo.find_by_id tenant id true s ≡ ok (some a))
        × Step a.status status
        × (b : Appointment N) × ((repo.update_status tenant id status s).0 ≡ ok b)
        × (r.value ≡ some b)
  unfolding update_appointment_status
  update_appointment_status-Step tenant id status origin s s' r h =
      elim (answer (repo.find_by_id tenant id true s)) [
        | inr (e, failed) ↦ absurd (ground (arith, failed))
        | inl (none, found) ↦ absurd (ground (arith, found))
        | inl (some a, found) ↦ elim (answer (repo.update_status tenant id status s).0) [
          | inr (e, failed) ↦ absurd (ground (arith, found, failed))
          | inl (b, wrote) ↦ (
            a,
            found,
            update-Step a.status status (ground (arith, found)) (ground (arith, found)),
            b,
            wrote,
            ground (arith, found, wrote),
          )
        ]
      ]

  -- When a cancellation returns, the appointment was found as PENDING or CONFIRMED, and the
  -- repository wrote the status CANCELLED with the given reason and no other field.
  pub cancel_appointment-Step :
      (tenant id : String) (reason : Option String) (s s' : S) (r : UseCaseResult (Appointment N))
      → cancel_appointment repo services tenant id reason s ≡ (ok r, s')
      → (a : Appointment N) × (repo.find_by_id tenant id true s ≡ ok (some a))
        × ((a.status ≡ pending) ⊎ (a.status ≡ confirmed))
        × (b : Appointment N) × ((repo.update tenant id (cancellation reason) s).0 ≡ ok b)
        × (r.value ≡ some b)
  unfolding cancel_appointment
  cancel_appointment-Step tenant id reason s s' r h =
      elim (answer (repo.find_by_id tenant id true s)) [
        | inr (e, failed) ↦ absurd (ground (arith, failed))
        | inl (none, found) ↦ absurd (ground (arith, found))
        | inl (some a, found) ↦ elim (answer (repo.update tenant id (cancellation reason) s).0) [
          | inr (e, failed) ↦ absurd (ground (arith, found, failed))
          | inl (b, wrote) ↦ (
            a,
            found,
            cancellable-cases a.status (ground (arith, found)),
            b,
            wrote,
            ground (arith, found, wrote),
          )
        ]
      ]

  -- An update of the status of an appointment that was found, to one that its status may not step
  -- to, is answered with 409 and leaves the store as it was.
  pub update_appointment_status_refused :
      (tenant id : String) (status : AppointmentStatus) (origin : Option String) (s : S)
      (a : Appointment N)
      → repo.find_by_id tenant id true s ≡ ok (some a)
      → ¬ (Step a.status status)
      → Refuses 409 s (update_appointment_status repo services tenant id (some status) origin s)
  unfolding update_appointment_status error_middleware http_status_from_domain_error
  update_appointment_status_refused tenant id status origin s a found no_step =
      elim (Bool-cases (is_modifiable a.status)) [
        | inr closed ↦ rw (found, closed) (refl, refl)
        | inl m ↦ elim (Bool-cases (starts_early status a.status)) [
          | inl early ↦ rw (found, m, early) (refl, refl)
          | inr fine ↦ absurd (no_step (update-Step a.status status m fine))
        ]
      ]

abbrev pub IsClosed : AppointmentStatus → Type 0
IsClosed s = (s ≡ completed) ⊎ (s ≡ cancelled)

pub Step-not-IsClosed : {from to : AppointmentStatus} → Step from to → ¬ (IsClosed from)
Step-not-IsClosed (by_cancel h) c = ground arith
Step-not-IsClosed (by_update c d e) k = elim k [ inl x ↦ c x | inr x ↦ d x ]

pub Step-ne-in_progress :
    {from to : AppointmentStatus} → Step from to → from ≢ in_progress → to ≢ in_progress
Step-ne-in_progress (by_cancel h) b = cc
Step-ne-in_progress (by_update c d e) b = λ h. elim (e h) [ inl x ↦ b x | inr x ↦ c x ]
