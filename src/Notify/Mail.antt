-- ===== src/Notify/Mail.antt =====
-- What the worker sends: mails, messages, and what they show of tenants and appointments
-- (infrastructure/workers/notification.worker.ts).
use api_neutra_v.Prelude.{ℕ, String, Option, none, some, truthy, or_default, ◌==◌, if◌then◌else◌}
use api_neutra_v.Prelude.Int.{ℤ, pos, negsuc}
use api_neutra_v.Runtime.{Result, Action, Time}
use api_neutra_v.Booking.Entity.{Appointment, ServiceRef, StaffRef, UserRef}
use api_neutra_v.Team.{named}
use api_neutra_v.Tenant.{TenantConfig, Branding, Settings, NotificationSettings}
use api_neutra_v.Notify.{Channel, Message}

-- The tenant as the mails show it.
pub record MailTenant : Type 0 where
  pub tenant_name : String
  pub tenant_logo : Option String
  pub support_email : String
  pub website_url : String
  pub primary_color : String

pub record AppointmentMail : Type 0 where
  pub id : String
  pub user_name : String
  pub service_name : String
  pub staff_name : String
  pub appointment_date : String
  pub appointment_time : String
  pub duration : ℤ
  pub notes : Option String

pub record ApprovalMail : Type 0 where
  pub appointment : AppointmentMail
  pub approve_link : String
  pub reject_link : String
  pub year : ℕ

-- The services for mail and messages. The recipient of a message is given with its channel.
pub record Outbox (S : Type 0) : Type 0 where
  pub send_appointment_confirmation :
      String → AppointmentMail → Option MailTenant → Option String → Action S (Unit {0})
  pub send_appointment_cancellation :
      String → AppointmentMail → String → Option MailTenant → Action S (Unit {0})
  pub send_pending_approval : String → ApprovalMail → Option MailTenant → Action S (Unit {0})
  pub send_welcome_email : String → String → MailTenant → Action S (Unit {0})
  pub send_password_reset : String → String → MailTenant → Action S (Unit {0})
  pub notify : Channel → String → Message → Option String → Action S (Unit {0})

-- The environment of the process, and the writing of dates.
pub record WorkerContext (N : Type 0) : Type 0 where
  pub smtp_from : Option String
  pub frontend_url : Option String
  pub local_date : Time → String
  pub local_time : Time → String
  pub year : ℕ
  pub appointment_ics : String → String → Appointment N → ℤ → Result String

abbrev pub or_text : Option String → String → String
or_text o d = or_default (named o) d

abbrev pub branding_of : Option TenantConfig → Option Branding
branding_of none = none
branding_of (some c) = c.branding

abbrev pub settings_of : Option TenantConfig → Option Settings
settings_of none = none
settings_of (some c) = c.settings

abbrev pub notifications_of : Option TenantConfig → Option NotificationSettings
notifications_of none = none
notifications_of (some c) = c.notifications

abbrev pub logo_of : Option Branding → Option String
logo_of none = none
logo_of (some b) = b.tenant_logo

abbrev pub color_of : Option Branding → Option String
color_of none = none
color_of (some b) = b.primary_color

abbrev pub support_of : Option Settings → Option String
support_of none = none
support_of (some s) = s.support_email

-- A service or a staff member that was not loaded, and its default.
abbrev pub service_name : {N : Type 0} → Option (ServiceRef N) → String → String
service_name none d = d
service_name (some s) d = if truthy s.name then s.name else d

abbrev pub service_duration : {N : Type 0} → Option (ServiceRef N) → ℤ
service_duration none = pos 30
service_duration (some s) = elim s.duration [
  | pos n ↦ if n == 0 then pos 30 else pos n
  | negsuc n ↦ negsuc n
]

abbrev pub staff_name : Option StaffRef → String → String
staff_name none d = d
staff_name (some s) d = if truthy s.name then s.name else d

abbrev pub staff_email : Option StaffRef → Option String
staff_email none = none
staff_email (some s) = named s.email

-- `appointment.user` with an e-mail.
abbrev pub with_email : Option UserRef → Option UserRef
with_email none = none
with_email (some u) = if truthy u.email then some u else none

abbrev pub no_tenant_settings :
    Option (MailTenant × Option NotificationSettings) → Option NotificationSettings
no_tenant_settings none = none
no_tenant_settings (some (t, s)) = s

abbrev pub mail_tenant : Option (MailTenant × Option NotificationSettings) → Option MailTenant
mail_tenant none = none
mail_tenant (some (t, s)) = some t

abbrev pub subject_of : String → String → Message
subject_of subject body = record { subject = some subject; body = body; template_id = none }

abbrev pub template_of : String → String → Message
template_of id body = record { subject = none; body = body; template_id = some id }
