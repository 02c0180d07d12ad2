-- ===== src/Booking/History.antt =====
-- The statuses of the rows under sequences of calls: core/application/booking (cancel-appointment
-- and update-appointment-status) over infrastructure/database/prisma/appointment.prisma-repository.ts.
use api_neutra_v.Prelude.{
  true, false, ◌≡◌, ◌≢◌, refl, inl, inr, ap, sym, ◌∙◌, subst, String, Option, none, some, List, [],
  ◌∷◌, find, or_default, Bool-cases, Option-cases, arith,
}
use api_neutra_v.Runtime.{ok, outcome, answer}
use api_neutra_v.Runtime.Number.{Number}
use api_neutra_v.Booking.Entity.{
  AppointmentStatus, in_progress, cancelled, Appointment, is_cancellable, is_modifiable,
  AppointmentRepository, BookingServices, Job, enabled,
}
use api_neutra_v.Booking.Lifecycle.{
  Step, by_cancel, IsClosed, cancellable-cases, update-Step, Step-not-IsClosed, Step-ne-in_progress,
}
use api_neutra_v.Booking.Prisma.{
  map_to_entity, appointment_repository, find_by_id, update, update_status,
}
use api_neutra_v.Booking.Prisma.Database.{AppointmentRow, RowUpdate, Client, IsClient, is_at}
use api_neutra_v.Booking.Status.{
  notification_of, starts_early, cancel_appointment, update_appointment_status,
}
use api_neutra_v.Booking.Moves.{replaced-Moves, status_of, Moves}

-- A request to one of the two use cases, for an appointment of a tenant.
pub data Call : Type 0 where
  cancels : (tenant id : String) (reason : Option String) → Call
  updates : (tenant id : String) (status : Option AppointmentStatus) (origin : Option String) → Call

-- The columns of an update of the status alone.
abbrev only_status : AppointmentStatus → RowUpdate
only_status status = record {
  start_time = none;
  end_time = none;
  service_id = none;
  staff_id = none;
  status = some status;
  notes = none;
  cancellation_reason = none;
}

module _ {DB N : Type 0} (num : Number N) (client : Client DB N)
    (rows : DB → List (AppointmentRow N)) (laws : IsClient client rows)
    (services : BookingServices DB N)
    (enqueue_rows : (queue : String) (job : Job) (db : DB)
      → rows (services.enqueue queue job db).1 ≡ rows db) where
  abbrev repo : AppointmentRepository DB N
  repo = appointment_repository num client

  -- The database after a call, whether it returned or threw.
  abbrev pub after_call : Call → DB → DB
  after_call (cancels tenant id reason) db =
      (cancel_appointment repo services tenant id reason db).1
  after_call (updates tenant id status origin) db =
      (update_appointment_status repo services tenant id status origin db).1

  abbrev pub after_calls : List Call → DB → DB
  after_calls [] db = db
  after_calls (c ∷ cs) db = after_calls cs (after_call c db)

  -- The appointment that was read is the row.
  read_row :
      (tenant id : String) (a : Appointment N) (db : DB)
      → repo.find_by_id tenant id true db ≡ ok (some a)
      → (old : AppointmentRow N) × (find (is_at id tenant) (rows db) ≡ some old)
        × (old.status ≡ a.status)
  unfolding find_by_id map_to_entity
  read_row tenant id a db h = elim (Option-cases (find (is_at id tenant) (rows db))) [
    | inl gone ↦ absurd (ground (arith, laws.find_first_lem (is_at id tenant) db, gone, h))
    | inr (old, there) ↦
        let same : map_to_entity old ≡ a =
          ground (arith, laws.find_first_lem (is_at id tenant) db, there, h) in
        (old, there, ap (λ (x : Appointment N). x.status) same)
  ]

  -- A write of a status that the row may step to.
  write-Moves :
      (tenant id t k : String) (u : RowUpdate) (to : AppointmentStatus) (a : Appointment N)
      (db : DB)
      → u.status ≡ some to
      → repo.find_by_id tenant id true db ≡ ok (some a)
      → Step a.status to
      → Moves t k (rows db) (rows (client.update id tenant u db).1)
  write-Moves tenant id t k u to a db names read step =
      elim (outcome (client.update id tenant u db)) [
        | inr (e, db₁, failed) ↦
            let kept : rows db₁ ≡ rows db = rw failed at (laws.update_lem id tenant u db) in
            inl (ap (λ x. status_of t k (rows x.1)) failed ∙ ap (status_of t k) kept)
        | inl (r, db₁, made) ↦
            let (old, there, is, table) = rw made at (laws.update_lem id tenant u db) in
            let (row, found, same) = read_row tenant id a db read in
            let it : row ≡ old = ground (arith, found, there) in
            let old_status : old.status ≡ a.status =
              ap (λ (x : AppointmentRow N). x.status) (sym it) ∙ same in
            let new_status : r.status ≡ to = is.status ∙ ap (λ o. or_default o old.status) names in
            subst (λ x. Moves t k (rows db) (rows x.1)) (sym made)
              (subst (Moves t k (rows db)) (sym table) (
                replaced-Moves tenant id t k old r (rows db) there is.id is.tenant (
                  subst (λ x. Step x r.status) (sym old_status)
                    (subst (Step a.status) (sym new_status) step))))
      ]

  stays : (t k : String) (db db' : DB) → rows db' ≡ rows db → Moves t k (rows db) (rows db')
  stays t k db db' same = inl (ap (status_of t k) same)

  abbrev cancel_columns : Option String → RowUpdate
  cancel_columns reason = record (only_status cancelled) { cancellation_reason = reason }

  -- After the guards, the rows are those that the client's update leaves.
  cancel_rows :
      (tenant id : String) (reason : Option String) (a : Appointment N) (db : DB)
      → repo.find_by_id tenant id true db ≡ ok (some a)
      → is_cancellable a.status ≡ true
      → rows (after_call (cancels tenant id reason) db)
        ≡ rows (client.update id tenant (cancel_columns reason) db).1
  unfolding cancel_appointment update
  cancel_rows tenant id reason a db read may =
      elim (outcome (client.update id tenant (cancel_columns reason) db)) [
        | inr (e, db₁, failed) ↦ ground (arith, read, may, failed)
        | inl (r, db₁, made) ↦ elim (answer (services.get_tenant_feature_status tenant db₁)) [
          | inr (e, failed) ↦ ground (arith, read, may, made, failed)
          | inl (fs, known) ↦ elim (Bool-cases (enabled "EMAIL_NOTIFICATIONS" fs)) [
            | inr off ↦ ground (arith, read, may, made, known, off)
            | inl on ↦
                let job : Job = record {
                  type = "CANCELLED";
                  appointment_id = id;
                  tenant_id = tenant;
                  origin = none;
                  reason = reason;
                } in
                ground (arith, read, may, made, known, on, enqueue_rows "notifications" job db₁)
          ]
        ]
      ]

  cancel-Moves :
      (tenant id t k : String) (reason : Option String) (db : DB)
      → Moves t k (rows db) (rows (after_call (cancels tenant id reason) db))
  unfolding cancel_appointment
  cancel-Moves tenant id t k reason db =
      let db' = after_call (cancels tenant id reason) db in
      elim (answer (repo.find_by_id tenant id true db)) [
        | inr (e, failed) ↦ stays t k db db' (ground (arith, failed))
        | inl (none, read) ↦ stays t k db db' (ground (arith, read))
        | inl (some a, read) ↦ elim (Bool-cases (is_cancellable a.status)) [
          | inr closed ↦ stays t k db db' (ground (arith, read, closed))
          | inl may ↦
              subst (Moves t k (rows db)) (sym (cancel_rows tenant id reason a db read may)) (
                write-Moves tenant id t k (cancel_columns reason) cancelled a db refl read
                  (by_cancel (cancellable-cases a.status may)))
        ]
      ]

  update_rows :
      (tenant id : String) (status : AppointmentStatus) (origin : Option String) (a : Appointment N)
      (db : DB)
      → repo.find_by_id tenant id true db ≡ ok (some a)
      → is_modifiable a.status ≡ true
      → starts_early status a.status ≡ false
      → rows (after_call (updates tenant id (some status) origin) db)
        ≡ rows (client.update id tenant (only_status status) db).1
  unfolding update_appointment_status update_status
  update_rows tenant id status origin a db read may late =
      elim (outcome (client.update id tenant (only_status status) db)) [
        | inr (e, db₁, failed) ↦ ground (arith, read, may, late, failed)
        | inl (r, db₁, made) ↦ elim (answer (services.get_tenant_feature_status tenant db₁)) [
          | inr (e, failed) ↦ ground (arith, read, may, late, made, failed)
          | inl (fs, known) ↦ elim (Bool-cases (enabled "EMAIL_NOTIFICATIONS" fs)) [
            | inr off ↦ ground (arith, read, may, late, made, known, off)
            | inl on ↦ elim (Option-cases (notification_of status)) [
              | inl silent ↦ ground (arith, read, may, late, made, known, on, silent)
              | inr (type, told) ↦
                  let job : Job = record {
                    type = type;
                    appointment_id = id;
                    tenant_id = tenant;
                    origin = origin;
                    reason = none;
                  } in
                  ground (
                    arith,
                    read,
                    may,
                    late,
                    made,
                    known,
                    on,
                    told,
                    enqueue_rows "notifications" job db₁,
                  )
            ]
          ]
        ]
      ]

  update-Moves :
      (tenant id t k : String) (status : Option AppointmentStatus) (origin : Option String)
      (db : DB)
      → Moves t k (rows db) (rows (after_call (updates tenant id status origin) db))
  unfolding update_appointment_status
  update-Moves tenant id t k none origin db =
      stays t k db (after_call (updates tenant id none origin) db) refl
  update-Moves tenant id t k (some status) origin db =
      let db' = after_call (updates tenant id (some status) origin) db in
      elim (answer (repo.find_by_id tenant id true db)) [
        | inr (e, failed) ↦ stays t k db db' (ground (arith, failed))
        | inl (none, read) ↦ stays t k db db' (ground (arith, read))
        | inl (some a, read) ↦ elim (Bool-cases (is_modifiable a.status)) [
          | inr closed ↦ stays t k db db' (ground (arith, read, closed))
          | inl may ↦ elim (Bool-cases (starts_early status a.status)) [
            | inl early ↦ stays t k db db' (ground (arith, read, may, early))
            | inr late ↦
                subst (Moves t k (rows db))
                  (sym (update_rows tenant id status origin a db read may late))
                  (write-Moves tenant id t k (only_status status) status a db refl read
                    (update-Step a.status status may late))
          ]
        ]
      ]

  call-Moves : (t k : String) (c : Call) (db : DB) → Moves t k (rows db) (rows (after_call c db))
  call-Moves t k (cancels tenant id reason) db = cancel-Moves tenant id t k reason db
  call-Moves t k (updates tenant id status origin) db = update-Moves tenant id t k status origin db

  -- An appointment that is COMPLETED or CANCELLED keeps its status under every sequence of
  -- cancellations and status updates, of it and of other appointments, whether the calls return or
  -- throw. A notification changes no appointment.
  pub closed_forever :
      (tenant id : String) (s : AppointmentStatus) (calls : List Call) (db : DB)
      → IsClosed s
      → status_of tenant id (rows db) ≡ some s
      → status_of tenant id (rows (after_calls calls db)) ≡ some s
  closed_forever tenant id s [] db closed there = there
  closed_forever tenant id s (c ∷ cs) db closed there =
      closed_forever tenant id s cs (after_call c db) closed (elim (call-Moves tenant id c db) [
        | inl same ↦ same ∙ there
        | inr (from, to, was, now, step) ↦
            let is : s ≡ from = ground (arith, there, was) in
            absurd (Step-not-IsClosed step (subst IsClosed is closed))
      ])

  -- No sequence of cancellations and status updates, of an appointment and of others, returning or
  -- throwing, brings it to IN_PROGRESS if it is not there before: the update asks for a status that
  -- is itself reached only from IN_PROGRESS or is closed. A notification changes no appointment.
  pub in_progress_unreachable :
      (tenant id : String) (calls : List Call) (db : DB)
      → status_of tenant id (rows db) ≢ some in_progress
      → status_of tenant id (rows (after_calls calls db)) ≢ some in_progress
  in_progress_unreachable tenant id [] db apart = apart
  in_progress_unreachable tenant id (c ∷ cs) db apart =
      in_progress_unreachable tenant id cs (after_call c db) (elim (call-Moves tenant id c db) [
        | inl same ↦ λ e. apart (sym same ∙ e)
        | inr (from, to, was, now, step) ↦
            λ e. Step-ne-in_progress step (λ h. apart (was ∙ ap some h)) (ground (arith, now, e))
      ])
