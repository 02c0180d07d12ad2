-- ===== src/Access/Features.antt =====
-- middleware/feature.middleware.ts, middleware/super-admin-tenant-resolver.middleware.ts and
-- core/application/tenant/update-tenant-features.use-case.ts.
use api_neutra_v.Prelude.{
  Bool, true, false, String, Option, none, some, List, [], includes, str_eq, present, ◌<>◌,
  if◌then◌else◌,
}
use api_neutra_v.Errors.{app}
use api_neutra_v.Errors.Middleware.{ErrorResponse, api_error, detail}
use api_neutra_v.Runtime.{
  Result, ok, err, Action, ◌>>=◌, ◌>>◌, pure, query, try_catch, UseCaseResult, success_of,
}
use api_neutra_v.Access.{AuthenticatedUser, CacheProvider}
use api_neutra_v.Access.Guards.{is_super_admin}

-- `next()`, or the answer that ends the request.
pub data Outcome : Type 0 where
  passed : Outcome
  replied : ErrorResponse → Outcome

pub record FeatureRepository (S : Type 0) : Type 0 where
  pub find_enabled_feature_keys : String → S → Result (List String)
  pub update_tenant_features : String → List (String × Bool) → Action S (Unit {0})

abbrev pub feature_key : String → String
feature_key tenant = "tenant:" <> tenant <> ":features"

abbrev pub no_tenant : Outcome
no_tenant = replied (
    api_error "Tenant context required for feature check"
      (detail "VALIDATION_ERROR" "Tenant context missing") 400)

abbrev pub disabled : String → Outcome
disabled feature = replied (
    api_error ("Feature " <> feature <> " not enabled for this tenant")
      (detail "FEATURE_DISABLED" ("This functionality requires the " <> feature <> " module.")) 403)

abbrev pub failed_check : Outcome
failed_check = replied (api_error "Internal server error during feature check" [] 500)

module _ {S : Type 0} (features : FeatureRepository S) (cache : CacheProvider S) where
  abbrev pub load_features : String → Option (List String) → Action S (List String)
  load_features tenant (some keys) = pure keys
  load_features tenant none = do
    keys ← query (features.find_enabled_feature_keys tenant)
    cache.set (feature_key tenant) keys 3600
    pure keys

  abbrev pub check_feature : String → String → Action S Outcome
  check_feature feature tenant = do
    cached ← query (cache.get (feature_key tenant))
    enabled ← load_features tenant cached
    pure (if includes enabled feature then passed else disabled feature)

  -- All that is thrown is answered with 500.
  unfoldable pub require_feature : String → Option String → Action S Outcome
  require_feature feature none s = (ok no_tenant, s)
  require_feature feature (some tenant) s = elim (present (some tenant)) [
    | true ↦ try_catch (check_feature feature tenant) (λ _. pure failed_check) s
    | false ↦ (ok no_tenant, s)
  ]

  unfoldable pub update_tenant_features :
      String → List (String × Bool) → Action S (UseCaseResult (Unit {0}))
  update_tenant_features tenant changes = do
    features.update_tenant_features tenant changes
    pure (success_of none "Features updated successfully")

abbrev chosen_tenant : Option String → Option String → Option String
chosen_tenant none current = current
chosen_tenant (some t) current =
    if present (some t) then if str_eq t "all" then none else some t else current

abbrev tenant_required : Option String → Result (Option String)
tenant_required current =
    if present current
    then ok current
    else err (
        app (record {
          message = "Tenant context required. Use x-tenant-id or x-tenant-slug header.";
          status_code = 400;
          code = "TENANT_REQUIRED";
          details = none;
        }))

-- `resolveSuperAdminTenant`: the tenant of the request from then on.
unfoldable pub resolve_super_admin_tenant :
    Option AuthenticatedUser → (queried current : Option String) → Result (Option String)
resolve_super_admin_tenant none queried current = tenant_required current
resolve_super_admin_tenant (some u) queried current =
    if is_super_admin u then ok (chosen_tenant queried current) else tenant_required current
