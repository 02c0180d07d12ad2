-- ===== src/Tests/Webhooks.antt =====
-- The webhook of WhatsApp: a run, and the theorem at an input.
use api_neutra_v.Prelude.{◌≡◌, refl, true, false, String, none, some, List, [], ◌∷◌, ◌++◌}
use api_neutra_v.Runtime.{ok, Action, pure, ◌>>◌}
use api_neutra_v.Whatsapp.{ConfigRepository, WhatsAppConfig}
use api_neutra_v.Whatsapp.Webhook.{
  Message, WebhookBody, handled, process_incoming_message, process_whatsapp_webhook,
}
use api_neutra_v.Whatsapp.Dispatch.{events, run, process_whatsapp_webhook_lem}

abbrev config : WhatsAppConfig
config = record {
  id = "c1";
  tenant_id = "t1";
  phone_number_id = "p1";
  business_account_id = "b1";
  access_token = "secret";
  webhook_verify_token = "default_token";
  enabled = true;
  notifications_enabled = true;
  bot_enabled = false;
  templates = none;
  bot_config = none;
}

abbrev configs : ConfigRepository (List String)
configs = record {
  find_by_tenant_id = λ tenant s. ok (some config);
  find_by_phone_number_id = λ phone s. ok (some config);
  create = λ d s. (ok config, s);
  update = λ tenant d s. (ok config, s);
}

abbrev hello : Message
hello = record { from = "593"; id = "m1"; body = some "Hola"; phone_number_id = none }

-- A value with a message, whose status is not taken, and a value with a status.
abbrev body : WebhookBody
body = record {
  object = some "whatsapp_business_account";
  entry =
      (some (record {
        messages = hello ∷ [];
        statuses = record { id = "m0"; status = "read" } ∷ [];
        phone_number_id = some "p1";
      })
        ∷ none
        ∷ some (record {
          messages = [];
          statuses = record { id = "m2"; status = "sent" } ∷ [];
          phone_number_id = none;
        })
        ∷ [])
      ∷ [];
}

abbrev answer : Message → String → Action (List String) (Unit {0})
answer m tenant s = (ok tt, s ++ (m.id ∷ []))

abbrev note : String → String → Action (List String) (Unit {0})
note id status s = (ok tt, s ++ (status ∷ []))

taken : process_whatsapp_webhook configs answer note body [] ≡ (ok handled, "m1" ∷ "sent" ∷ [])
unfolding process_whatsapp_webhook process_incoming_message
taken = refl

process_whatsapp_webhook_lem_example :
    process_whatsapp_webhook configs answer note body []
    ≡ (run configs answer note (events body.entry) >> pure handled) []
process_whatsapp_webhook_lem_example = process_whatsapp_webhook_lem configs answer note body []
