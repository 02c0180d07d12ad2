-- ===== src/Whatsapp.antt =====
-- core/entities and core/repositories (whatsapp), core/application/whatsapp: the configuration and
-- the notifications.
pub mod Webhook
pub mod Dispatch
use api_neutra_v.Prelude.{
  Bool, true, false, not, ◌||◌, String, Option, none, some, List, [], truthy, present, or_default,
}
use api_neutra_v.Errors.{validation_as, forbidden_error}
use api_neutra_v.Runtime.{
  Result, Action, ◌>>=◌, ◌>>◌, pure, query, throw_if, or_throw, UseCaseResult, success_of,
}
use api_neutra_v.Booking.Entity.{enabled}
use api_neutra_v.Team.{named}

pub record WhatsAppTemplate : Type 0 where
  pub name : String
  pub language : String

pub record BotConfig : Type 0 where
  pub welcome_message : Option String
  pub away_message : Option String
  pub business_hours : Option (String × String)

pub record WhatsAppConfig : Type 0 where
  pub id : String
  pub tenant_id : String
  pub phone_number_id : String
  pub business_account_id : String
  pub access_token : String
  pub webhook_verify_token : String
  pub enabled : Bool
  pub notifications_enabled : Bool
  pub bot_enabled : Bool
  pub templates : Option (List WhatsAppTemplate)
  pub bot_config : Option BotConfig

-- A configuration without its id.
pub record NewConfig : Type 0 where
  pub tenant_id : String
  pub phone_number_id : String
  pub business_account_id : String
  pub access_token : String
  pub webhook_verify_token : String
  pub enabled : Bool
  pub notifications_enabled : Bool
  pub bot_enabled : Bool
  pub templates : Option (List WhatsAppTemplate)
  pub bot_config : Option BotConfig

pub record ConfigureDto : Type 0 where
  pub phone_number_id : Option String
  pub business_account_id : Option String
  pub access_token : Option String
  pub webhook_verify_token : Option String
  pub enabled : Option Bool
  pub notifications_enabled : Option Bool
  pub bot_enabled : Option Bool
  pub templates : Option (List WhatsAppTemplate)
  pub bot_config : Option BotConfig

-- What the use cases call of `IWhatsAppConfigRepository`.
pub record ConfigRepository (S : Type 0) : Type 0 where
  pub find_by_tenant_id : String → S → Result (Option WhatsAppConfig)
  pub find_by_phone_number_id : String → S → Result (Option WhatsAppConfig)
  pub create : NewConfig → Action S WhatsAppConfig
  pub update : String → ConfigureDto → Action S WhatsAppConfig

-- `IWhatsAppService`, with components of a template of type `C`.
pub record WhatsAppService (S C : Type 0) : Type 0 where
  pub send_text : String → String → String → Action S String
  pub send_template : String → String → String → List C → String → Action S String

pub record SendNotificationDto (C : Type 0) : Type 0 where
  pub tenant_id : String
  pub to : String
  pub template_name : String
  pub language_code : Option String
  pub components : Option (List C)

abbrev new_config : String → String → String → String → ConfigureDto → NewConfig
new_config tenant phone business token d = record {
  tenant_id = tenant;
  phone_number_id = phone;
  business_account_id = business;
  access_token = token;
  webhook_verify_token = or_default (named d.webhook_verify_token) "default_token";
  enabled = or_default d.enabled false;
  notifications_enabled = or_default d.notifications_enabled true;
  bot_enabled = or_default d.bot_enabled false;
  templates = d.templates;
  bot_config = d.bot_config;
}

module _ {S : Type 0} (configs : ConfigRepository S) where
  abbrev set_up : String → ConfigureDto → Action S (UseCaseResult WhatsAppConfig)
  set_up tenant d = do
    phone ←
        or_throw (named d.phone_number_id)
          (validation_as "Missing required WhatsApp credentials" "MISSING_REQUIRED_FIELDS")
    business ←
        or_throw (named d.business_account_id)
          (validation_as "Missing required WhatsApp credentials" "MISSING_REQUIRED_FIELDS")
    token ←
        or_throw (named d.access_token)
          (validation_as "Missing required WhatsApp credentials" "MISSING_REQUIRED_FIELDS")
    created ← configs.create (new_config tenant phone business token d)
    pure (success_of (some created) "WhatsApp config created successfully")

  abbrev create_or_update :
      String → ConfigureDto → Option WhatsAppConfig → Action S (UseCaseResult WhatsAppConfig)
  create_or_update tenant d none = set_up tenant d
  create_or_update tenant d (some c) = do
    updated ← configs.update tenant d
    pure (success_of (some updated) "WhatsApp config updated successfully")

  -- `features` is `getTenantFeatureStatus` of the feature repository.
  unfoldable pub configure_whatsapp :
      (features : String → S → Result (List (String × Bool)))
      → String
      → ConfigureDto
      → Action S (UseCaseResult WhatsAppConfig)
  configure_whatsapp features tenant d = do
    throw_if (not (truthy tenant)) (validation_as "Tenant ID is required" "MISSING_REQUIRED_FIELDS")
    status ← query (features tenant)
    throw_if (not (enabled "WHATSAPP_NOTIFICATIONS" status)) (
        forbidden_error
          "Upgrade required: WHATSAPP_NOTIFICATIONS feature is not enabled for this tenant.")
    existing ← query (configs.find_by_tenant_id tenant)
    create_or_update tenant d existing

  abbrev found_config : Option WhatsAppConfig → UseCaseResult WhatsAppConfig
  found_config none = success_of none "No WhatsApp configuration found"
  found_config (some c) = success_of (some c) "WhatsApp config retrieved successfully"

  unfoldable pub get_whatsapp_config : String → Action S (UseCaseResult WhatsAppConfig)
  get_whatsapp_config tenant = do
    throw_if (not (truthy tenant)) (validation_as "Tenant ID is required" "MISSING_REQUIRED_FIELDS")
    config ← query (configs.find_by_tenant_id tenant)
    pure (found_config config)

unfoldable pub send_notification :
    {S C : Type 0} → WhatsAppService S C → SendNotificationDto C → Action S (UseCaseResult String)
send_notification service d = do
  throw_if (not (truthy d.tenant_id)) (validation_as "Tenant ID required" "MISSING_REQUIRED_FIELDS")
  throw_if (not (truthy d.to) || not (truthy d.template_name))
      (validation_as "Missing required fields: to, templateName" "MISSING_REQUIRED_FIELDS")
  id ←
      service.send_template d.to d.template_name (or_default d.language_code "es")
        (or_default d.components []) d.tenant_id
  pure (success_of (some id) "Template message sent successfully")
