-- ===== src/Notify/Sent.antt =====
-- What the worker sends under the settings of a tenant: infrastructure/workers/notification.worker.ts.
use api_neutra_v.Prelude.{
  ◌≡◌, inl, inr, refl, ◌∙◌, true, false, String, Option, none, some, truthy, str_eq, Bool-cases,
  arith,
}
use api_neutra_v.Runtime.{bind-of, ok}
use api_neutra_v.Booking.Entity.{Job, Appointment, UserRef, AppointmentRepository}
use api_neutra_v.Tenant.{NotificationSettings, TenantRepository}
use api_neutra_v.Notify.{
  Channel, email, whatsapp, push, is_channel_enabled, worker_channel_enabled, Message,
  about_booking,
}
use api_neutra_v.Notify.Channels.{worker_channel_enabled_lem}
use api_neutra_v.Notify.Mail.{or_text, WorkerContext, Outbox, with_email}
use api_neutra_v.Notify.Worker.{
  appointment_mail, confirmed_message, confirmed_push, cancelled_message, cancelled_push,
  settings_for, message_if, send_confirmed, send_cancelled, send_booking, notification_worker,
}

-- The tenant has switched every channel of the event off.
abbrev pub IsSilent : Option NotificationSettings → String → Type 0
IsSilent s event = (channel : Channel) → is_channel_enabled s channel (some event) ≡ false

module _ {S N : Type 0} (context : WorkerContext N) (appointments : AppointmentRepository S N)
    (tenants : TenantRepository S) (out : Outbox S) where
  closed :
      (channel : Channel) (address : Option String) (message : Message) (tenant : Option String)
      (s : S)
      → message_if context appointments tenants out false channel address message tenant s
        ≡ (ok tt, s)
  closed channel none message tenant s = refl
  closed channel (some a) message tenant s = elim (Bool-cases (truthy a)) [
    | inl e ↦ ground (arith, e)
    | inr e ↦ ground (arith, e)
  ]

  off :
      (s : Option NotificationSettings) (channel : Channel) (event : String)
      → IsSilent s event
      → worker_channel_enabled s channel (some event) ≡ false
  off s channel event silent = worker_channel_enabled_lem s channel (some event) ∙ silent channel

  opened :
      (address : Option String) (token : String) (message : Message) (s : S)
      → address ≡ some token
      → truthy token ≡ true
      → message_if context appointments tenants out true push address message none s
        ≡ out.notify push token message none s
  opened address token message s has filled = ground (arith, has, filled)

  -- A cancellation under settings that switch all of its channels off sends nothing.
  pub cancelled_silent :
      (job : Job) (a : Appointment N) (u : UserRef) (s : S)
      → IsSilent
          (settings_for context appointments tenants out (some job.tenant_id) job.origin s)
          "appointmentCancelled"
      → send_cancelled context appointments tenants out job a u s ≡ (ok tt, s)
  unfolding send_cancelled
  cancelled_silent job a u s silent =
      let settings =
        settings_for context appointments tenants out (some job.tenant_id) job.origin s in
      let mail = appointment_mail context appointments tenants out a u in
      let text =
        cancelled_message context appointments tenants out mail
          (or_text job.reason "Administrativa") in
      let note = cancelled_push context appointments tenants out mail in
      let no_mail = off settings email "appointmentCancelled" silent in
      let no_message = off settings whatsapp "appointmentCancelled" silent in
      let no_push = off settings push "appointmentCancelled" silent in
      rw (no_mail, no_message, no_push)
        (bind-of
            (message_if context appointments tenants out false whatsapp u.phone text
              (some job.tenant_id))
            (λ _. message_if context appointments tenants out false push u.push_token note none) s
            (closed whatsapp u.phone text (some job.tenant_id) s)
          ∙ closed push u.push_token note none s)

  -- A confirmation is pushed to the user's device although the tenant has switched every channel of
  -- it off; nothing else is sent.
  pub confirmed_pushes :
      (job : Job) (a : Appointment N) (u : UserRef) (token : String) (s : S)
      → IsSilent
          (settings_for context appointments tenants out (some job.tenant_id) job.origin s)
          "appointmentConfirmed"
      → u.push_token ≡ some token
      → truthy token ≡ true
      → send_confirmed context appointments tenants out job a u s
        ≡ out.notify push token
            (confirmed_push context appointments tenants out
              (appointment_mail context appointments tenants out a u))
            none
            s
  unfolding send_confirmed
  confirmed_pushes job a u token s silent has filled =
      let settings =
        settings_for context appointments tenants out (some job.tenant_id) job.origin s in
      let mail = appointment_mail context appointments tenants out a u in
      let text = confirmed_message context appointments tenants out mail in
      let note = confirmed_push context appointments tenants out mail in
      let no_mail = off settings email "appointmentConfirmed" silent in
      let no_message = off settings whatsapp "appointmentConfirmed" silent in
      rw (no_mail, no_message)
        (bind-of
            (message_if context appointments tenants out false whatsapp u.phone text
              (some job.tenant_id))
            (λ _. message_if context appointments tenants out true push u.push_token note none) s
            (closed whatsapp u.phone text (some job.tenant_id) s)
          ∙ opened u.push_token token note s has filled)

  -- A job of a booking whose appointment is missing, or whose user has no e-mail, sends nothing.
  pub missing_silent :
      (job : Job) (s : S) (found : Option (Appointment N))
      → appointments.find_by_id job.tenant_id job.appointment_id true s ≡ ok found
      → ((a : Appointment N) → found ≡ some a → with_email a.user ≡ none)
      → str_eq job.type "PENDING_APPROVAL" ≡ false
      → notification_worker context appointments tenants out (about_booking job) s ≡ (ok tt, s)
  unfolding send_booking
  missing_silent job s none read missing other = elim (Bool-cases (str_eq job.type "CONFIRMED")) [
    | inl e ↦ ground (arith, e, read)
    | inr e ↦ elim (Bool-cases (str_eq job.type "CANCELLED")) [
      | inl f ↦ ground (arith, e, f, read)
      | inr f ↦ ground (arith, e, f, other)
    ]
  ]
  missing_silent job s (some a) read missing other =
      let gone = missing a refl in
      elim (Bool-cases (str_eq job.type "CONFIRMED")) [
        | inl e ↦ ground (arith, e, read, gone)
        | inr e ↦ elim (Bool-cases (str_eq job.type "CANCELLED")) [
          | inl f ↦ ground (arith, e, f, read, gone)
          | inr f ↦ ground (arith, e, f, other)
        ]
      ]
