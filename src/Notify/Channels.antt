-- ===== src/Notify/Channels.antt =====
-- The two readings of the settings of notifications agree.
use api_neutra_v.Prelude.{
  ◌≡◌, ◌↔◌, inl, inr, refl, Bool, true, false, String, Option, none, some, Member, All, of_All,
  List, [], truthy, or_default, Option-cases, Bool-cases, arith,
}
use api_neutra_v.Tenant.{NotificationSettings, lookup}
use api_neutra_v.Notify.{
  push_if, setting, global_setting, Channel, email, whatsapp, push, switch, is_channel_enabled,
  get_enabled_channels, worker_channel_enabled,
}

global_lem :
    (s : NotificationSettings) (channel : Channel)
    → or_default (setting channel s.channels) true ≡ global_setting channel s
global_lem s channel = elim (Option-cases s.channels) [
  | inl e ↦ rw e refl
  | inr (c, e) ↦ elim (Option-cases (switch channel c)) [
    | inl f ↦ ground (arith, e, f)
    | inr (on, f) ↦ ground (arith, e, f)
  ]
]

-- The worker and the helper enable a channel for an event under the same settings.
pub worker_channel_enabled_lem :
    (s : Option NotificationSettings) (channel : Channel) (event : Option String)
    → worker_channel_enabled s channel event ≡ is_channel_enabled s channel event
unfolding worker_channel_enabled is_channel_enabled
worker_channel_enabled_lem none channel event = refl
worker_channel_enabled_lem (some s) channel none = global_lem s channel
worker_channel_enabled_lem (some s) channel (some event) =
    let global = global_lem s channel in
    elim (Option-cases s.events) [
      | inl e ↦ elim (Bool-cases (truthy event)) [
        | inl f ↦ ground (arith, e, f, global)
        | inr f ↦ ground (arith, e, f, global)
      ]
      | inr (events, e) ↦ elim (Bool-cases (truthy event)) [
        | inr f ↦ ground (arith, e, f, global)
        | inl f ↦ elim (Option-cases (lookup event events)) [
          | inl g ↦ ground (arith, e, f, g, global)
          | inr (c, g) ↦ elim (Option-cases (switch channel c)) [
            | inl k ↦ ground (arith, e, f, g, k, global)
            | inr (on, k) ↦ ground (arith, e, f, g, k, global)
          ]
        ]
      ]
    ]

stays : (b : Bool) (c x : Channel) (cs : List Channel) → Member x cs → Member x (push_if b c cs)
stays true c x cs m = inr m
stays false c x cs m = m

All-push :
    (P : Channel → Type 0) (b : Bool) (c : Channel) (cs : List Channel)
    → (b ≡ true → P c)
    → All P cs
    → All P (push_if b c cs)
All-push P true c cs h all = (h refl, all)
All-push P false c cs h all = all

listed :
    (on : Channel → Bool) (c : Channel)
    → on c ≡ true
    → Member c
        (push_if (on email) email (push_if (on whatsapp) whatsapp (push_if (on push) push [])))
listed on email e = rw e (inl refl)
listed on whatsapp e =
    stays (on email) email whatsapp (push_if (on whatsapp) whatsapp (push_if (on push) push []))
      (rw e (inl refl))
listed on push e =
    stays (on email) email push (push_if (on whatsapp) whatsapp (push_if (on push) push []))
      (stays (on whatsapp) whatsapp push (push_if (on push) push []) (rw e (inl refl)))

-- The list of enabled channels names a channel exactly when it is enabled for the event.
pub get_enabled_channels_iff :
    (s : Option NotificationSettings) (channel : Channel) (event : Option String)
    → (is_channel_enabled s channel event ≡ true) ↔ Member channel (get_enabled_channels s event)
unfolding get_enabled_channels
get_enabled_channels_iff s channel event =
    let on : Channel → Bool = λ c. is_channel_enabled s c event in
    (
      listed on channel,
      of_All (λ c. on c ≡ true) channel (get_enabled_channels s event)
          (All-push (λ c. on c ≡ true) (on email) email
            (push_if (on whatsapp) whatsapp (push_if (on push) push [])) (λ e. e)
            (All-push (λ c. on c ≡ true) (on whatsapp) whatsapp (push_if (on push) push []) (λ e. e)
              (All-push (λ c. on c ≡ true) (on push) push [] (λ e. e) tt))),
    )
