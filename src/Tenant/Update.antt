-- ===== src/Tenant/Update.antt =====
-- core/application/tenant: update-tenant, delete-tenant and the reads.
use api_neutra_v.Prelude.{
  Bool, true, false, String, Option, none, some, List, [], ◌∷◌, str_eq, is_some, or_else,
  or_default, if◌then◌else◌,
}
use api_neutra_v.Errors.{entity_not_found_error, duplicate_entity_error}
use api_neutra_v.Runtime.{
  Action, ◌>>=◌, ◌>>◌, pure, query, throw_if, or_throw, UseCaseResult, success_of,
}
use api_neutra_v.Team.{named}
use api_neutra_v.Tenant.{
  Tenant, TenantType, TenantConfig, Branding, Settings, TenantChanges, TenantRepository,
}

-- `{ ...old, ...new }` on objects whose keys are the names of the lists.
abbrev pub put : {A : Type 0} → String → A → List (String × A) → List (String × A)
put key v [] = (key, v) ∷ []
put key v ((k, w) ∷ rest) =
    let changed = put key v rest in if str_eq k key then (k, v) ∷ rest else (k, w) ∷ changed

abbrev pub spread : {A : Type 0} → List (String × A) → List (String × A) → List (String × A)
spread old [] = old
spread old ((k, v) ∷ rest) = spread (put k v old) rest

abbrev no_branding : Branding
no_branding = record { primary_color = none; tenant_logo = none; favicon = none }

abbrev no_settings : Settings
no_settings = record {
  support_email = none;
  website_url = none;
  currency = none;
  language = none;
  timezone = none;
}

abbrev pub merge_branding : Branding → Branding → Branding
merge_branding old new = record {
  primary_color = or_else new.primary_color old.primary_color;
  tenant_logo = or_else new.tenant_logo old.tenant_logo;
  favicon = or_else new.favicon old.favicon;
}

abbrev pub merge_settings : Settings → Settings → Settings
merge_settings old new = record {
  support_email = or_else new.support_email old.support_email;
  website_url = or_else new.website_url old.website_url;
  currency = or_else new.currency old.currency;
  language = or_else new.language old.language;
  timezone = or_else new.timezone old.timezone;
}

abbrev pub empty_config : TenantConfig
empty_config = record { branding = none; settings = none; features = none; notifications = none }

-- The configuration, key by key; a key that is not given is not overwritten.
abbrev pub merge_config : TenantConfig → TenantConfig → TenantConfig
merge_config old new = record {
  branding =
      some (
        merge_branding (or_default old.branding no_branding) (or_default new.branding no_branding));
  settings =
      some (
        merge_settings (or_default old.settings no_settings) (or_default new.settings no_settings));
  features = some (spread (or_default old.features []) (or_default new.features []));
  notifications = or_else new.notifications old.notifications;
}

abbrev pub merged : Option TenantConfig → Option TenantConfig → Option TenantConfig
merged old none = none
merged old (some new) = some (merge_config (or_default old empty_config) new)

-- The tenant as the public reads show it.
pub record PublicTenant : Type 0 where
  pub id : String
  pub name : String
  pub slug : String
  pub type : TenantType
  pub active : Bool

module _ {S : Type 0} (tenants : TenantRepository S) where
  abbrev pub check_slug : String → Option String → Action S (Unit {0})
  check_slug current none s = pure tt s
  check_slug current (some slug) s = elim (str_eq slug current) [
    | true ↦ pure tt s
    | false ↦
        (do
          found ← query (tenants.find_by_slug slug)
          throw_if (is_some found) (duplicate_entity_error "Tenant" "slug" slug))
          s
  ]

  unfoldable pub update_tenant : String → TenantChanges → Action S (UseCaseResult Tenant)
  update_tenant id d = do
    found ← query (tenants.find_by_id id)
    existing ← or_throw found (entity_not_found_error "Tenant" id)
    check_slug existing.slug (named d.slug)
    updated ← tenants.update id (record d { config = merged existing.config d.config })
    pure (success_of (some updated) "Tenant updated successfully")

  unfoldable pub delete_tenant : String → Action S (UseCaseResult (Unit {0}))
  delete_tenant id = do
    found ← query (tenants.find_by_id id)
    or_throw found (entity_not_found_error "Tenant" id)
    tenants.delete id
    pure (success_of none "Tenant deleted successfully")

  abbrev get_tenant_by_id : String → Action S (UseCaseResult Tenant)
  get_tenant_by_id id = do
    found ← query (tenants.find_by_id id)
    tenant ← or_throw found (entity_not_found_error "Tenant" id)
    pure (success_of (some tenant) "")

  abbrev get_tenant_by_slug : String → Action S (UseCaseResult PublicTenant)
  get_tenant_by_slug slug = do
    found ← query (tenants.find_by_slug slug)
    tenant ← or_throw found (entity_not_found_error "Tenant" slug)
    pure (
        success_of
          (some (record {
            id = tenant.id;
            name = tenant.name;
            slug = tenant.slug;
            type = tenant.type;
            active = tenant.active;
          }))
          "Tenant found")

  abbrev get_tenants : Action S (UseCaseResult (List Tenant))
  get_tenants = do found ← query tenants.find_all; pure (success_of (some found) "")
