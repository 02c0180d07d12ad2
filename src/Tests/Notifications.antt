-- ===== src/Tests/Notifications.antt =====
-- Notifications: the worker at inputs, with an outbox that counts what is sent.
use api_neutra_v.Prelude.{ℕ, ◌+◌, ◌≡◌, refl, true, false, String, none, some, [], ◌∷◌}
use api_neutra_v.Prelude.Int.{pos}
use api_neutra_v.Errors.{other}
use api_neutra_v.Runtime.{ok, err, Action}
use api_neutra_v.Booking.Entity.{Job, Appointment, UserRef, AppointmentRepository, confirmed}
use api_neutra_v.Tenant.{Tenant, TenantRepository, NotificationChannels, NotificationSettings}
use api_neutra_v.Tenant.Update.{empty_config}
use api_neutra_v.Notify.{email, whatsapp, push, is_channel_enabled}
use api_neutra_v.Notify.Sent.{IsSilent, cancelled_silent, confirmed_pushes}
use api_neutra_v.Notify.Mail.{WorkerContext, Outbox}
use api_neutra_v.Notify.Worker.{
  send_cancelled, send_confirmed, settings_for, confirmed_push, appointment_mail,
}
use api_neutra_v.Tests.People.{no_tenants, shop}

abbrev quiet : NotificationChannels
quiet = record { email = some false; whatsapp = some false; push = some false }

abbrev quiet_settings : NotificationSettings
quiet_settings = record {
  channels = none;
  events = some (("appointmentConfirmed", quiet) ∷ ("appointmentCancelled", quiet) ∷ []);
}

abbrev quiet_shop : Tenant
quiet_shop = record shop {
  config = some (record empty_config { notifications = some quiet_settings });
}

abbrev tenants : TenantRepository ℕ
tenants = record no_tenants { find_by_id = λ id s. ok (some quiet_shop) }

abbrev context : WorkerContext ℕ
context = record {
  smtp_from = none;
  frontend_url = none;
  local_date = λ t. "1/1/2026";
  local_time = λ t. "10:00";
  year = 2026;
  appointment_ics = λ service staff a duration. err other;
}

abbrev counted : Action ℕ (Unit {0})
counted n = (ok tt, n + 1)

abbrev out : Outbox ℕ
out = record {
  send_appointment_confirmation = λ address mail tenant ics. counted;
  send_appointment_cancellation = λ address mail reason tenant. counted;
  send_pending_approval = λ address mail tenant. counted;
  send_welcome_email = λ address name tenant. counted;
  send_password_reset = λ address link tenant. counted;
  notify = λ channel address message tenant. counted;
}

abbrev appointments : AppointmentRepository ℕ ℕ
appointments = record {
  create = λ tenant d s. (err other, s);
  find_by_id = λ tenant id include s. ok none;
  find_all = λ tenant filters s. ok [];
  find_by_user = λ tenant user s. ok [];
  find_by_staff = λ tenant staff start end s. ok [];
  update = λ tenant id d s. (err other, s);
  update_status = λ tenant id status s. (err other, s);
  delete = λ tenant id s. (ok tt, s);
  check_availability = λ tenant staff start end skip s. ok true;
}

abbrev eva : UserRef
eva = record {
  id = "u1";
  name = "Eva";
  email = "eva@shop";
  phone = some "099";
  push_token = some "device";
}

abbrev visit : Appointment ℕ
visit = record {
  id = "a1";
  user_id = "u1";
  service_id = "s1";
  staff_id = "w1";
  start_time = pos 0;
  end_time = pos 1800000;
  status = confirmed;
  notes = none;
  cancellation_reason = none;
  confirmation_sent = false;
  reminder_sent = false;
  tenant_id = "t1";
  created_at = pos 0;
  updated_at = pos 0;
  coupon_id = none;
  discount_amount = 0;
  subtotal = 0;
  total = 0;
  user = some eva;
  service = none;
  staff = none;
  coupon = none;
}

abbrev job : String → Job
job type = record {
  type = type;
  appointment_id = "a1";
  tenant_id = "t1";
  origin = none;
  reason = none;
}

silent :
    IsSilent
      (settings_for context appointments tenants out (some "t1") none 0)
      "appointmentCancelled"
unfolding is_channel_enabled
silent email = refl
silent whatsapp = refl
silent push = refl

cancelled_silent_example :
    send_cancelled context appointments tenants out (job "CANCELLED") visit eva 0 ≡ (ok tt, 0)
cancelled_silent_example =
    cancelled_silent context appointments tenants out (job "CANCELLED") visit eva 0 silent

silent_confirmed :
    IsSilent
      (settings_for context appointments tenants out (some "t1") none 0)
      "appointmentConfirmed"
unfolding is_channel_enabled
silent_confirmed email = refl
silent_confirmed whatsapp = refl
silent_confirmed push = refl

confirmed_pushes_example :
    send_confirmed context appointments tenants out (job "CONFIRMED") visit eva 0
    ≡ out.notify push "device"
        (confirmed_push context appointments tenants out
          (appointment_mail context appointments tenants out visit eva))
        none
        0
confirmed_pushes_example =
    confirmed_pushes context appointments tenants out (job "CONFIRMED") visit eva "device" 0
      silent_confirmed refl refl
