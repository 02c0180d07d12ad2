-- ===== src/Notify/Worker.antt =====
-- infrastructure/workers/notification.worker.ts: a job of the queue becomes mail and messages. Dates
-- are written by functions that are parameters, and so are the services that send.
use api_neutra_v.Prelude.{
  Bool, true, false, ◌&&◌, ◌||◌, String, Option, none, some, truthy, str_eq, or_default, ◌<>◌,
  if◌then◌else◌,
}
use api_neutra_v.Runtime.{Result, ok, err, Action, ◌>>=◌, ◌>>◌, pure, query, when}
use api_neutra_v.Account.{AccountJob, welcome_email, password_reset}
use api_neutra_v.Booking.Entity.{Job, Appointment, StaffRef, UserRef, AppointmentRepository}
use api_neutra_v.Team.{named}
use api_neutra_v.Tenant.{Tenant, NotificationSettings, TenantRepository}
use api_neutra_v.Notify.{
  Channel, email, whatsapp, push, worker_channel_enabled, Message, QueueJob, about_booking,
  about_account,
}
use api_neutra_v.Notify.Mail.{
  MailTenant, AppointmentMail, ApprovalMail, Outbox, WorkerContext, or_text, branding_of,
  settings_of, notifications_of, logo_of, color_of, support_of, service_name, service_duration,
  staff_name, staff_email, with_email, no_tenant_settings, mail_tenant, subject_of, template_of,
}

module _ {S N : Type 0} (context : WorkerContext N) (appointments : AppointmentRepository S N)
    (tenants : TenantRepository S) (out : Outbox S) where
  abbrev base_url : Option String → String
  base_url origin = or_text origin (or_text context.frontend_url "http://localhost:3000")

  abbrev resolved_of : String → Option Tenant → Option (MailTenant × Option NotificationSettings)
  resolved_of base none = none
  resolved_of base (some t) = some (
    record {
      tenant_name = t.name;
      tenant_logo = logo_of (branding_of t.config);
      support_email =
          or_text (support_of (settings_of t.config))
            (or_text context.smtp_from "support@neutra.com");
      website_url = base;
      primary_color = or_text (color_of (branding_of t.config)) "#667eea";
    },
    notifications_of t.config,
  )

  abbrev or_nothing :
      String → Result (Option Tenant) → Option (MailTenant × Option NotificationSettings)
  or_nothing base (ok t) = resolved_of base t
  or_nothing base (err e) = none

  -- A tenant that is not found or cannot be read is no tenant.
  abbrev pub resolve_tenant_config :
      Option String → String → S → Option (MailTenant × Option NotificationSettings)
  resolve_tenant_config none base s = none
  resolve_tenant_config (some tenant) base s =
      let read = or_nothing base (tenants.find_by_id tenant s) in
      if truthy tenant then read else none

  -- The settings that count for the jobs of a tenant.
  abbrev pub settings_for : Option String → Option String → S → Option NotificationSettings
  settings_for tenant origin s =
      no_tenant_settings (resolve_tenant_config tenant (base_url origin) s)

  abbrev pub default_mail_tenant : String → MailTenant
  default_mail_tenant base = record {
    tenant_name = "Neutra";
    tenant_logo = none;
    support_email = or_text context.smtp_from "support@neutra.com";
    website_url = base;
    primary_color = "#000000";
  }

  abbrev pub appointment_mail : Appointment N → UserRef → AppointmentMail
  appointment_mail a u = record {
    id = a.id;
    user_name = u.name;
    service_name = service_name a.service "Service";
    staff_name = staff_name a.staff "Staff Member";
    appointment_date = context.local_date a.start_time;
    appointment_time = context.local_time a.start_time;
    duration = service_duration a.service;
    notes = a.notes;
  }

  -- `if (address && isChannelEnabled(…)) { … }` on an optional address.
  abbrev pub message_if :
      Bool → Channel → Option String → Message → Option String → Action S (Unit {0})
  message_if allowed channel none message tenant = pure tt
  message_if allowed channel (some address) message tenant =
      when (truthy address && allowed) (out.notify channel address message tenant)

  abbrev ics_of : Result String → Option String
  ics_of (ok content) = named (some content)
  ics_of (err e) = none

  abbrev pub confirmed_message : AppointmentMail → Message
  confirmed_message m = template_of "appointment_confirmed" (
      "Hola " <> m.user_name <> ", tu cita para " <> m.service_name <> " con " <> m.staff_name
      <> " el " <> m.appointment_date <> " a las " <> m.appointment_time <> " ha sido CONFIRMADA.")

  abbrev pub confirmed_push : AppointmentMail → Message
  confirmed_push m =
      subject_of "Cita Confirmada" ("Tu cita para " <> m.service_name <> " ha sido confirmada.")

  abbrev pub cancelled_message : AppointmentMail → String → Message
  cancelled_message m reason = template_of "appointment_cancelled" (
      "Hola " <> m.user_name <> ", lamentamos informarte que tu cita para " <> m.service_name
      <> " el " <> m.appointment_date <> " ha sido CANCELADA. Razón: " <> reason <> ".")

  abbrev pub cancelled_push : AppointmentMail → Message
  cancelled_push m =
      subject_of "Cita Cancelada" ("Tu cita para " <> m.service_name <> " ha sido cancelada.")

  unfoldable pub send_confirmed : Job → Appointment N → UserRef → Action S (Unit {0})
  send_confirmed job a u s =
      let resolved = resolve_tenant_config (some job.tenant_id) (base_url job.origin) s in
      let settings = no_tenant_settings resolved in
      let mail = appointment_mail a u in
      let ics =
        ics_of (context.appointment_ics mail.service_name mail.staff_name a mail.duration) in
      (do
        when (worker_channel_enabled settings email (some "appointmentConfirmed"))
            (out.send_appointment_confirmation u.email mail (mail_tenant resolved) ics)
        message_if (worker_channel_enabled settings whatsapp (some "appointmentConfirmed")) whatsapp
            u.phone (confirmed_message mail) (some job.tenant_id)
        message_if true push u.push_token (confirmed_push mail) none)
        s

  unfoldable pub send_cancelled : Job → Appointment N → UserRef → Action S (Unit {0})
  send_cancelled job a u s =
      let resolved = resolve_tenant_config (some job.tenant_id) (base_url job.origin) s in
      let settings = no_tenant_settings resolved in
      let mail = appointment_mail a u in
      let reason = or_text job.reason "Administrativa" in
      (do
        when (worker_channel_enabled settings email (some "appointmentCancelled"))
            (out.send_appointment_cancellation u.email mail reason (mail_tenant resolved))
        message_if (worker_channel_enabled settings whatsapp (some "appointmentCancelled")) whatsapp
            u.phone (cancelled_message mail reason) (some job.tenant_id)
        message_if (worker_channel_enabled settings push (some "appointmentCancelled")) push
            u.push_token (cancelled_push mail) none)
        s

  abbrev approval_mail : String → Appointment N → UserRef → StaffRef → ApprovalMail
  approval_mail base a u m = record {
    appointment = record (appointment_mail a u) {
      staff_name = m.name;
      notes = some (or_text a.notes "Sin notas");
    };
    approve_link = base <> "/admin/appointments/" <> a.id <> "/approve";
    reject_link = base <> "/admin/appointments/" <> a.id <> "/reject";
    year = context.year;
  }

  abbrev send_pending : Job → Appointment N → UserRef → StaffRef → Action S (Unit {0})
  send_pending job a u m s =
      let base = base_url job.origin in
      let resolved = resolve_tenant_config (some job.tenant_id) base s in
      elim (staff_email (some m)) [
        | none ↦ pure tt s
        | some address ↦
            when
              (worker_channel_enabled (no_tenant_settings resolved) email
                (some "appointmentPending"))
              (out.send_pending_approval address (approval_mail base a u m) (mail_tenant resolved))
              s
      ]

  abbrev about_user :
      (Appointment N → UserRef → Action S (Unit {0})) → Option (Appointment N) → Action S (Unit {0})
  about_user send none s = pure tt s
  about_user send (some a) s = elim (with_email a.user) [ none ↦ pure tt s | some u ↦ send a u s ]

  abbrev about_staff : Job → Option (Appointment N) → Action S (Unit {0})
  about_staff job none s = pure tt s
  about_staff job (some a) s = elim a.staff [
    | none ↦ pure tt s
    | some m ↦ elim a.user [ none ↦ pure tt s | some u ↦ send_pending job a u m s ]
  ]

  -- What the type of the job asks for; other types are ignored.
  abbrev pub send_for : Job → Option (Appointment N) → Action S (Unit {0})
  send_for job found s =
      if str_eq job.type "CONFIRMED"
      then about_user (send_confirmed job) found s
      else if str_eq job.type "CANCELLED"
      then about_user (send_cancelled job) found s
      else about_staff job found s

  abbrev is_known : String → Bool
  is_known type =
      str_eq type "CONFIRMED" || str_eq type "CANCELLED" || str_eq type "PENDING_APPROVAL"

  unfoldable pub send_booking : Job → Action S (Unit {0})
  send_booking job s = elim (is_known job.type) [
    | false ↦ pure tt s
    | true ↦
        (do
          found ← query (appointments.find_by_id job.tenant_id job.appointment_id true)
          send_for job found)
          s
  ]

  unfoldable pub send_account : AccountJob → Action S (Unit {0})
  send_account (welcome_email address name tenant origin) s =
      let resolved = resolve_tenant_config (some tenant) (base_url origin) s in
      when (worker_channel_enabled (no_tenant_settings resolved) email (some "welcome"))
        (out.send_welcome_email address name
          (or_default (mail_tenant resolved) (default_mail_tenant (base_url origin))))
        s
  send_account (password_reset address link tenant origin) s =
      let resolved = resolve_tenant_config tenant (base_url origin) s in
      when (worker_channel_enabled (no_tenant_settings resolved) email (some "passwordReset"))
        (out.send_password_reset address link
          (or_default (mail_tenant resolved) (default_mail_tenant (base_url origin))))
        s

  -- `notificationWorker`; what is thrown is logged and thrown again.
  abbrev pub notification_worker : QueueJob → Action S (Unit {0})
  notification_worker (about_booking job) = send_booking job
  notification_worker (about_account job) = send_account job
