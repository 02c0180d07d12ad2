-- ===== src/Whatsapp/Webhook.antt =====
-- The webhook of WhatsApp: core/application/whatsapp (process-whatsapp-webhook and
-- process-incoming-message) and infrastructure/services/whatsapp-bot.service.ts.
use api_neutra_v.Prelude.{
  Bool, true, false, ◌&&◌, String, Option, none, some, List, [], ◌∷◌, is_text, truthy,
  lower_contains, or_default,
}
use api_neutra_v.Errors.{validation_as, entity_not_found_error}
use api_neutra_v.Runtime.{
  Result, Action, ◌>>=◌, ◌>>◌, pure, query, or_throw, when, try_catch, Time, UseCaseResult,
  success_of,
}
use api_neutra_v.Team.{named}
use api_neutra_v.Whatsapp.{ConfigRepository, WhatsAppService}

-- A message, with its id and the text of its body; `phone_number_id` is of the metadata.
pub record Message : Type 0 where
  pub from : String
  pub id : String
  pub body : Option String
  pub phone_number_id : Option String

pub record StatusUpdate : Type 0 where
  pub id : String
  pub status : String

-- An absent list is empty. The messages have no metadata of their own.
pub record WebhookValue : Type 0 where
  pub messages : List Message
  pub statuses : List StatusUpdate
  pub phone_number_id : Option String

-- `entry` has the values of its changes.
pub record WebhookBody : Type 0 where
  pub object : Option String
  pub entry : List (List (Option WebhookValue))

pub data WebhookResult : Type 0 where
  handled not_whatsapp_event : WebhookResult

pub record NewConversation : Type 0 where
  pub tenant_id : String
  pub wa_conversation_id : String
  pub phone_number : String
  pub status : String
  pub last_message_at : Time

-- What the bot calls of the repository of conversations; a conversation is its id.
pub record ConversationRepository (S : Type 0) : Type 0 where
  pub find_by_phone_number : String → String → S → Result (Option String)
  pub create : NewConversation → Action S String

module _ {S C : Type 0} (service : WhatsAppService S C)
    (conversations : ConversationRepository S) where
  abbrev welcome : Message → String → Time → Option String → Action S (Unit {0})
  welcome m tenant now (some conversation) = pure tt
  welcome m tenant now none = do
    conversations.create (record {
      tenant_id = tenant;
      wa_conversation_id = m.id;
      phone_number = m.from;
      status = "active";
      last_message_at = now;
    })
    service.send_text m.from "¡Hola! Bienvenido a nuestro servicio automatizado." tenant
    pure tt

  abbrev reply : Message → String → Action S (Unit {0})
  reply m tenant =
      when (lower_contains "hola" (or_default m.body ""))
        (service.send_text m.from "Hola de nuevo. ¿En qué puedo ayudarte hoy?" tenant >> pure tt)

  abbrev pub talk : Time → Message → String → Action S (Unit {0})
  talk now m tenant = do
    found ← query (conversations.find_by_phone_number tenant m.from)
    welcome m tenant now found
    reply m tenant

  -- What is thrown is logged and dropped.
  unfoldable pub bot : Time → Message → String → Action S (Unit {0})
  bot now m tenant = try_catch (talk now m tenant) (λ e. pure tt)

-- `answer` is `processIncomingMessage` of the bot, and `update_status` of the message repository.
module _ {S : Type 0} (configs : ConfigRepository S)
    (answer : Message → String → Action S (Unit {0}))
    (update_status : String → String → Action S (Unit {0})) where
  unfoldable pub process_incoming_message : Message → Action S (UseCaseResult (Unit {0}))
  process_incoming_message m = do
    phone ←
        or_throw (named m.phone_number_id)
          (validation_as "Missing phone_number_id in webhook metadata" "WHATSAPP_CONFIG_NOT_FOUND")
    found ← query (configs.find_by_phone_number_id phone)
    config ← or_throw found (entity_not_found_error "WhatsApp config" phone)
    answer m config.tenant_id
    pure (success_of none "Message processed successfully")

  abbrev pub receive : Option String → Message → Action S (Unit {0})
  receive phone m = process_incoming_message (record m { phone_number_id = phone }) >> pure tt

  abbrev pub deliver : StatusUpdate → Action S (Unit {0})
  deliver u = when (truthy u.id && truthy u.status) (update_status u.id u.status)

  abbrev pub receive_all : Option String → List Message → Action S (Unit {0})
  receive_all phone [] = pure tt
  receive_all phone (m ∷ ms) = receive phone m >> receive_all phone ms

  abbrev pub deliver_all : List StatusUpdate → Action S (Unit {0})
  deliver_all [] = pure tt
  deliver_all (u ∷ us) = deliver u >> deliver_all us

  -- The statuses count only where there are no messages.
  abbrev pub take_value : Option WebhookValue → Action S (Unit {0})
  take_value none = pure tt
  take_value (some v) = elim v.messages [
    | [] ↦ deliver_all v.statuses
    | m ∷ ms ↦ receive_all v.phone_number_id (m ∷ ms)
  ]

  abbrev pub take_changes : List (Option WebhookValue) → Action S (Unit {0})
  take_changes [] = pure tt
  take_changes (v ∷ vs) = take_value v >> take_changes vs

  abbrev pub take_entries : List (List (Option WebhookValue)) → Action S (Unit {0})
  take_entries [] = pure tt
  take_entries (e ∷ es) = take_changes e >> take_entries es

  abbrev pub take : Bool → WebhookBody → Action S WebhookResult
  take true b = take_entries b.entry >> pure handled
  take false b = pure not_whatsapp_event

  unfoldable pub process_whatsapp_webhook : WebhookBody → Action S WebhookResult
  process_whatsapp_webhook b = take (is_text b.object "whatsapp_business_account") b
