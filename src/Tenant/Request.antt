-- ===== src/Tenant/Request.antt =====
-- How a request finds its tenant: middleware/tenant.middleware.ts, with the constants of
-- config/infrastructure-constants.ts and the environments of core/domain/constants.ts.
use api_neutra_v.Prelude.{
  Bool, true, false, not, ◌&&◌, ◌||◌, String, Option, none, some, List, [], ◌∷◌, any, includes,
  str_eq, trim, present, or_default, split_on, starts_with, contains, lower_eq, starts_with_numbers,
  if◌then◌else◌,
}
use api_neutra_v.Errors.Middleware.{ErrorResponse, api_error, detail}
use api_neutra_v.Runtime.{ok, Action, ◌>>=◌, pure, query, try_catch}
use api_neutra_v.Access.{superadmin_slug}
use api_neutra_v.Team.{named}
use api_neutra_v.Tenant.{Tenant, TenantType, TenantRepository, store}

pub record Request : Type 0 where
  pub original_url : String
  pub tenant_id : Option String
  pub tenant_slug : Option String
  pub cookie : Option String
  pub host : Option String

-- `req.tenant`; `req.tenantId` is its id.
pub record RequestTenant : Type 0 where
  pub id : String
  pub name : String
  pub slug : String
  pub type : TenantType
  pub active : Bool

-- `next()`, with the tenant that was put on the request, if any, or the answer that ends it.
pub data Resolved : Type 0 where
  passes : Option RequestTenant → Resolved
  answers : ErrorResponse → Resolved

-- The id and the slug that were found in a request.
pub record TenantKeys : Type 0 where
  pub id : Option String
  pub slug : Option String

abbrev pub management_path_prefixes : List String
management_path_prefixes =
    "/api/users" ∷ "/api/roles" ∷ "/api/permissions" ∷ "/api/tenants" ∷ "/api/admin/stats"
    ∷ "/api/auth/login" ∷ "/api/auth/signup" ∷ "/api/auth/forgot-password"
    ∷ "/api/auth/reset-password" ∷ "/api/auth/validate" ∷ []

abbrev pub reserved_subdomains : List String
reserved_subdomains = "www" ∷ "api" ∷ []

abbrev pub is_development : String → Bool
is_development env = lower_eq (trim env) "development" || lower_eq (trim env) "dev"

abbrev pub is_test : String → Bool
is_test env = lower_eq (trim env) "test"

abbrev pub is_management_route : String → Bool
is_management_route path = any (λ prefix. starts_with prefix path) management_path_prefixes

abbrev first_part : List String → String
first_part [] = ""
first_part (part ∷ parts) = part

abbrev last_is : String → List String → Bool
last_is name [] = false
last_is name (part ∷ []) = str_eq part name
last_is name (part ∷ next ∷ parts) = last_is name (next ∷ parts)

-- The labels of a host under `localhost`: `shop.localhost`, whatever the port.
abbrev local_subdomain : List String → Option String
local_subdomain [] = none
local_subdomain (label ∷ []) = none
local_subdomain (label ∷ next ∷ labels) =
    if last_is "localhost" (next ∷ labels) then some label else none

abbrev three_labels : List String → Option String
three_labels [] = none
three_labels (a ∷ []) = none
three_labels (a ∷ b ∷ []) = none
three_labels (a ∷ b ∷ c ∷ labels) = some a

abbrev one_label : List String → Bool
one_label [] = true
one_label (a ∷ []) = true
one_label (a ∷ b ∷ labels) = false

unfoldable pub extract_subdomain : String → Option String
extract_subdomain host =
    if one_label (split_on 46 host) || starts_with_numbers host
    then none
    else if contains "localhost" host
    then local_subdomain (split_on 46 (first_part (split_on 58 host)))
    else three_labels (split_on 46 host)

-- `const [key, value] = cookie.trim().split("=")`
abbrev second_part : List String → Option String
second_part [] = none
second_part (a ∷ []) = none
second_part (a ∷ b ∷ parts) = some b

-- `acc[key]` after all cookies were put: the last one with the key counts.
abbrev pub cookie_value : String → List String → Option String
cookie_value key [] = none
cookie_value key (cookie ∷ rest) =
    let later = cookie_value key rest in
    let named_later = any (λ c. str_eq (first_part (split_on 61 (trim c))) key) rest in
    let parts = split_on 61 (trim cookie) in
    if named_later then later else if str_eq (first_part parts) key then second_part parts else none

abbrev pub no_keys : TenantKeys → Bool
no_keys k = not (present k.id) && not (present k.slug)

abbrev pub from_headers : Request → TenantKeys
from_headers r = record { id = named r.tenant_id; slug = named r.tenant_slug }

abbrev pub from_cookies : Request → TenantKeys
from_cookies r = elim (named r.cookie) [
  | none ↦ record { id = none; slug = none }
  | some header ↦ record {
    id = named (cookie_value "tenant-id" (split_on 59 header));
    slug = named (cookie_value "tenant-slug" (split_on 59 header));
  }
]

abbrev unreserved : Option String → Option String
unreserved none = none
unreserved (some label) = if includes reserved_subdomains label then none else some label

abbrev pub from_host : Request → TenantKeys
from_host r = record {
  id = none;
  slug = unreserved (named (extract_subdomain (or_default (named r.host) "")));
}

abbrev pub from_path : Bool → TenantKeys
from_path allowed = record { id = none; slug = if allowed then some superadmin_slug else none }

abbrev pub or_keys : TenantKeys → TenantKeys → TenantKeys
or_keys k next = if no_keys k then next else k

-- The path without its query.
abbrev pub normalized_path : Request → String
normalized_path r = first_part (split_on 63 r.original_url)

-- Headers, cookies, the host, and the tenant of the administrators, in this order.
unfoldable pub tenant_keys : String → Request → TenantKeys
tenant_keys environment r =
    or_keys (or_keys (or_keys (from_headers r) (from_cookies r)) (from_host r))
      (from_path (is_management_route (normalized_path r) || is_development environment))

abbrev pub test_tenant : TenantKeys → RequestTenant
test_tenant k = record {
  id = or_default k.id "default-tenant-id";
  name = "Test Tenant";
  slug = or_default k.slug "default";
  type = store;
  active = true;
}

abbrev pub request_tenant : Tenant → RequestTenant
request_tenant t = record {
  id = t.id;
  name = t.name;
  slug = t.slug;
  type = t.type;
  active = t.active;
}

abbrev pub tenant_not_found : ErrorResponse
tenant_not_found = api_error "Tenant not found" (detail "TENANT_NOT_FOUND" "Tenant not found") 404

abbrev pub tenant_inactive : ErrorResponse
tenant_inactive =
    api_error "Tenant is inactive. Please contact support."
      (detail "TENANT_INACTIVE" "Tenant is inactive.") 403

abbrev pub tenant_failed : ErrorResponse
tenant_failed =
    api_error "Failed to resolve tenant" (detail "INTERNAL_SERVER_ERROR" "Internal Server Error")
      500

-- What a request gets for the tenant that was looked up.
abbrev pub admit : Bool → Option Tenant → Resolved
admit management none = if management then passes none else answers tenant_not_found
admit management (some t) =
    if t.active then passes (some (request_tenant t)) else answers tenant_inactive

module _ {S : Type 0} (tenants : TenantRepository S) where
  abbrev by_id : Option String → Action S (Option Tenant)
  by_id none = pure none
  by_id (some id) = query (tenants.find_by_id id)

  abbrev pub look_up : TenantKeys → Action S (Option Tenant)
  look_up k s = elim k.slug [
    | some slug ↦ query (tenants.find_by_slug slug) s
    | none ↦ by_id k.id s
  ]

  abbrev look_up_and_admit : Bool → TenantKeys → Action S Resolved
  look_up_and_admit management k = do found ← look_up k; pure (admit management found)

  -- `createTenantMiddleware`, with the environment of the dependencies and the one of the process.
  unfoldable pub tenant_middleware : String → String → Request → Action S Resolved
  tenant_middleware environment process r s = elim (starts_with "/api" (normalized_path r)) [
    | false ↦ (ok (passes none), s)
    | true ↦ elim (is_test environment || is_test process) [
      | true ↦ (ok (passes (some (test_tenant (tenant_keys environment r)))), s)
      | false ↦
          try_catch
            (look_up_and_admit (is_management_route (normalized_path r))
              (tenant_keys environment r))
            (λ _. pure (answers tenant_failed)) s
    ]
  ]
