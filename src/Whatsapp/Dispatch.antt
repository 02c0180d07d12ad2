-- ===== src/Whatsapp/Dispatch.antt =====
-- The webhook as a list of events: core/application/whatsapp/process-whatsapp-webhook.use-case.ts.
use api_neutra_v.Prelude.{
  ◌≡◌, inl, inr, refl, ap, sym, ◌∙◌, Bool, true, false, String, Option, none, some, List, [], ◌∷◌,
  ◌++◌, map, is_text, List-cases, if◌then◌else◌, arith,
}
use api_neutra_v.Runtime.{ok, err, Action, ◌>>◌, pure, outcome, try_catch, Time}
use api_neutra_v.Whatsapp.{ConfigRepository, WhatsAppService}
use api_neutra_v.Whatsapp.Webhook.{
  Message, StatusUpdate, WebhookValue, WebhookBody, handled, not_whatsapp_event,
  ConversationRepository, talk, bot, receive, deliver, receive_all, deliver_all, take_value,
  take_changes, take_entries, take, process_whatsapp_webhook,
}

pub data Event : Type 0 where
  received : Option String → Message → Event
  delivered : StatusUpdate → Event

-- The messages of a value, or else its statuses.
abbrev pub value_events : Option WebhookValue → List Event
value_events none = []
value_events (some v) = elim v.messages [
  | [] ↦ map delivered v.statuses
  | m ∷ ms ↦ map (received v.phone_number_id) (m ∷ ms)
]

abbrev pub change_events : List (Option WebhookValue) → List Event
change_events [] = []
change_events (v ∷ vs) = value_events v ++ change_events vs

abbrev pub events : List (List (Option WebhookValue)) → List Event
events [] = []
events (e ∷ es) = change_events e ++ events es

module _ {S : Type 0} (configs : ConfigRepository S)
    (answer : Message → String → Action S (Unit {0}))
    (update_status : String → String → Action S (Unit {0})) where
  abbrev pub run_event : Event → Action S (Unit {0})
  run_event (received phone m) = receive configs answer update_status phone m
  run_event (delivered u) = deliver configs answer update_status u

  -- One event after the other; the first one that throws ends the run.
  abbrev pub run : List Event → Action S (Unit {0})
  run [] = pure tt
  run (e ∷ es) = run_event e >> run es

  first : (m k l : Action S (Unit {0})) (s : S) → ((s' : S) → k s' ≡ l s') → (m >> k) s ≡ (m >> l) s
  first m k l s same = elim (outcome (m s)) [
    | inl (u, s₁, ran) ↦ ground (arith, ran, same s₁)
    | inr (e, s₁, failed) ↦ ground (arith, failed)
  ]

  run-append : (xs ys : List Event) (s : S) → run (xs ++ ys) s ≡ (run xs >> run ys) s
  run-append [] ys s = refl
  run-append (x ∷ xs) ys s = elim (outcome (run_event x s)) [
    | inl (u, s₁, ran) ↦ ground (arith, ran, run-append xs ys s₁)
    | inr (e, s₁, failed) ↦ ground (arith, failed)
  ]

  receive_all_lem :
      (phone : Option String) (ms : List Message) (s : S)
      → receive_all configs answer update_status phone ms s ≡ run (map (received phone) ms) s
  receive_all_lem phone [] s = refl
  receive_all_lem phone (m ∷ ms) s =
      first (receive configs answer update_status phone m)
        (receive_all configs answer update_status phone ms) (run (map (received phone) ms)) s
        (receive_all_lem phone ms)

  deliver_all_lem :
      (us : List StatusUpdate) (s : S)
      → deliver_all configs answer update_status us s ≡ run (map delivered us) s
  deliver_all_lem [] s = refl
  deliver_all_lem (u ∷ us) s =
      first (deliver configs answer update_status u) (deliver_all configs answer update_status us)
        (run (map delivered us)) s (deliver_all_lem us)

  take_value_lem :
      (v : Option WebhookValue) (s : S)
      → take_value configs answer update_status v s ≡ run (value_events v) s
  take_value_lem none s = refl
  take_value_lem (some v) s = elim (List-cases v.messages) [
    | inl bare ↦ rw bare (deliver_all_lem v.statuses s)
    | inr (m, ms, has) ↦ rw has (receive_all_lem v.phone_number_id (m ∷ ms) s)
  ]

  then_rest :
      (m k : Action S (Unit {0})) (xs ys : List Event) (s : S)
      → ((s' : S) → m s' ≡ run xs s')
      → ((s' : S) → k s' ≡ run ys s')
      → (m >> k) s ≡ run (xs ++ ys) s
  then_rest m k xs ys s same rest =
      first m k (run ys) s rest
      ∙ ap (λ x. elim x.0 [ ok a ↦ run ys x.1 | err e ↦ (err e, x.1) ]) (same s)
      ∙ sym (run-append xs ys s)

  take_changes_lem :
      (vs : List (Option WebhookValue)) (s : S)
      → take_changes configs answer update_status vs s ≡ run (change_events vs) s
  take_changes_lem [] s = refl
  take_changes_lem (v ∷ vs) s =
      then_rest (take_value configs answer update_status v)
        (take_changes configs answer update_status vs) (value_events v) (change_events vs) s
        (take_value_lem v) (take_changes_lem vs)

  take_entries_lem :
      (es : List (List (Option WebhookValue))) (s : S)
      → take_entries configs answer update_status es s ≡ run (events es) s
  take_entries_lem [] s = refl
  take_entries_lem (e ∷ es) s =
      then_rest (take_changes configs answer update_status e)
        (take_entries configs answer update_status es) (change_events e) (events es) s
        (take_changes_lem e) (take_entries_lem es)

  take_lem :
      (ours : Bool) (b : WebhookBody) (s : S)
      → take configs answer update_status ours b s
        ≡ (if ours then (run (events b.entry) >> pure handled) s else (ok not_whatsapp_event, s))
  take_lem true b s =
      ap (λ x. elim x.0 [ ok a ↦ pure handled x.1 | err e ↦ (err e, x.1) ])
        (take_entries_lem b.entry s)
  take_lem false b s = refl

  -- A webhook of WhatsApp runs the events of its entries and changes in order, of each value the
  -- messages or else the statuses, up to the first that throws. Any other body changes nothing.
  pub process_whatsapp_webhook_lem :
      (b : WebhookBody) (s : S)
      → process_whatsapp_webhook configs answer update_status b s ≡ (
          if is_text b.object "whatsapp_business_account"
          then (run (events b.entry) >> pure handled) s
          else (ok not_whatsapp_event, s))
  unfolding process_whatsapp_webhook
  process_whatsapp_webhook_lem b s = take_lem (is_text b.object "whatsapp_business_account") b s

caught :
    {S : Type 0} (m : Action S (Unit {0})) (s : S)
    → (s' : S) × (try_catch m (λ e. pure tt) s ≡ (ok tt, s'))
caught m s = elim (outcome (m s)) [
  | inl (u, s', ran) ↦ (s', ground (arith, ran))
  | inr (e, s', failed) ↦ (s', ground (arith, failed))
]

-- The bot always returns, whatever fails in it.
pub bot_returns :
    {S C : Type 0} (service : WhatsAppService S C) (conversations : ConversationRepository S)
    (now : Time) (m : Message) (tenant : String) (s : S)
    → (s' : S) × (bot service conversations now m tenant s ≡ (ok tt, s'))
unfolding bot
bot_returns service conversations now m tenant s =
    caught (talk service conversations now m tenant) s
