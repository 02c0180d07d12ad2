-- ===== src/Notify.antt =====
-- Notifications: core/utils/notification-settings.util.ts, core/services/notification.service.ts and
-- what the worker of the queue takes and sends.
pub mod Channels
pub mod Mail
pub mod Worker
pub mod Sent
use api_neutra_v.Prelude.{
  ℕ, Bool, true, false, ◌&&◌, String, Option, none, some, List, [], ◌∷◌, str_eq, truthy, present,
  or_default, if◌then◌else◌,
}
use api_neutra_v.Prelude.Int.{ℤ}
use api_neutra_v.Errors.{Thrown}
use api_neutra_v.Runtime.{Result, ok, err, Action, Time}
use api_neutra_v.Booking.Entity.{Job}
use api_neutra_v.Account.{AccountJob}
use api_neutra_v.Tenant.{NotificationChannels, NotificationSettings, lookup}

pub data Channel : Type 0 where
  email whatsapp push : Channel

abbrev pub switch : Channel → NotificationChannels → Option Bool
switch email c = c.email
switch whatsapp c = c.whatsapp
switch push c = c.push

-- What a setting says of a channel; an absent setting says nothing.
abbrev pub setting : Channel → Option NotificationChannels → Option Bool
setting channel none = none
setting channel (some c) = switch channel c

abbrev pub global_setting : Channel → NotificationSettings → Bool
global_setting channel s = elim s.channels [
  | none ↦ true
  | some c ↦ elim (switch channel c) [ none ↦ true | some on ↦ on ]
]

abbrev event_setting : Channel → String → List (String × NotificationChannels) → Option Bool
event_setting channel event events = elim (lookup event events) [
  | none ↦ none
  | some c ↦ switch channel c
]

-- `isChannelEnabled` of the helper.
unfoldable pub is_channel_enabled : Option NotificationSettings → Channel → Option String → Bool
is_channel_enabled none channel event = true
is_channel_enabled (some s) channel none = global_setting channel s
is_channel_enabled (some s) channel (some event) =
    let global = global_setting channel s in
    elim s.events [
      | none ↦ global
      | some events ↦
          if truthy event
          then elim (event_setting channel event events) [ none ↦ global | some on ↦ on ]
          else global
    ]

abbrev pub push_if : Bool → Channel → List Channel → List Channel
push_if b c cs = if b then c ∷ cs else cs

unfoldable pub get_enabled_channels : Option NotificationSettings → Option String → List Channel
get_enabled_channels s event = push_if (is_channel_enabled s email event) email (
    push_if (is_channel_enabled s whatsapp event) whatsapp
      (push_if (is_channel_enabled s push event) push []))

abbrev pub NotificationEvents : Type 0
NotificationEvents = List (String × NotificationChannels)

abbrev events_of : NotificationSettings → NotificationEvents
events_of s = or_default s.events []

-- `isChannelEnabled` of the worker.
unfoldable pub worker_channel_enabled : Option NotificationSettings → Channel → Option String → Bool
worker_channel_enabled none channel event = true
worker_channel_enabled (some s) channel event =
    let given = setting channel (lookup (or_default event "") (events_of s)) in
    or_default (if present event then given else none)
      (or_default (setting channel s.channels) true)

pub record Message : Type 0 where
  pub subject : Option String
  pub body : String
  pub template_id : Option String

-- `INotificationProvider`: the channel's name and its sending.
pub record Provider (S : Type 0) : Type 0 where
  pub channel_name : String
  pub send : String → Message → Option String → Action S Bool

-- The provider that was registered last under a name.
abbrev pub provider_of : {S : Type 0} → String → List (Provider S) → Option (Provider S)
provider_of name [] = none
provider_of name (p ∷ ps) =
    let later = provider_of name ps in
    elim later [ some q ↦ some q | none ↦ if str_eq p.channel_name name then some p else none ]

-- All sends are started; the first that throws is thrown when all have ended.
abbrev pub after : {S : Type 0} → Result (Unit {0}) → Action S (Unit {0}) → Action S (Unit {0})
after (ok a) m s = m s
after (err e) m s = (err e, (m s).1)

abbrev dispatch :
    {S : Type 0}
    → List (Provider S)
    → List (String × String)
    → Message
    → Option String
    → String
    → Action S (Unit {0})
dispatch providers recipients message tenant channel s = elim (provider_of channel providers) [
  | none ↦ (ok tt, s)
  | some p ↦ elim (lookup channel recipients) [
    | none ↦ (ok tt, s)
    | some recipient ↦
        if truthy recipient
        then (let (r, s') = p.send recipient message tenant s in
            elim r [ ok sent ↦ (ok tt, s') | err e ↦ (err e, s') ])
        else (ok tt, s)
  ]
]

-- `NotificationService.notify`
unfoldable pub notify :
    {S : Type 0}
    → List (Provider S)
    → List String
    → List (String × String)
    → Message
    → Option String
    → Action S (Unit {0})
notify providers [] recipients message tenant s = (ok tt, s)
notify providers (channel ∷ channels) recipients message tenant s =
    let (r, s') = dispatch providers recipients message tenant channel s in
    after r (notify providers channels recipients message tenant) s'

-- A job of the queue.
pub data QueueJob : Type 0 where
  about_booking : Job → QueueJob
  about_account : AccountJob → QueueJob
