-- ===== src/Tenant/Create.antt =====
-- core/application/tenant/create-tenant.use-case.ts
use api_neutra_v.Prelude.{
  true, String, Option, none, some, List, [], ◌∷◌, ◌<>◌, str_eq, is_some, if◌then◌else◌,
}
use api_neutra_v.Prelude.Int.{ℤ, pos}
use api_neutra_v.Errors.{duplicate_entity_error}
use api_neutra_v.Runtime.{Action, ◌>>=◌, ◌>>◌, pure, query, throw_if, UseCaseResult, success_of}
use api_neutra_v.Access.{Permission, Role}
use api_neutra_v.Account.{AccountRepository}
use api_neutra_v.Roles.{RolePreset, RoleStore, PermissionStore}
use api_neutra_v.Tenant.{Tenant, TenantType, TenantConfig, TenantChanges, TenantRepository}

pub record CreateTenantDto : Type 0 where
  pub name : String
  pub slug : String
  pub type : TenantType
  pub config : Option TenantConfig

-- A role of every new tenant, with the names of its permissions.
pub record DefaultRole : Type 0 where
  pub name : String
  pub level : ℤ
  pub description : String
  pub permissions : List String

abbrev pub default_permissions : List String
default_permissions =
    "users:read" ∷ "users:manage" ∷ "products:read" ∷ "products:write" ∷ "products:delete"
    ∷ "orders:read" ∷ "orders:manage" ∷ "stats:read" ∷ "categories:read" ∷ "categories:write"
    ∷ "categories:delete" ∷ "roles:read" ∷ "roles:write" ∷ "roles:delete" ∷ "permissions:read"
    ∷ "permissions:write" ∷ "permissions:delete" ∷ "services:read" ∷ "services:write"
    ∷ "services:delete" ∷ "staff:read" ∷ "staff:write" ∷ "staff:delete" ∷ "appointments:read"
    ∷ "appointments:write" ∷ "appointments:delete" ∷ "banners:read" ∷ "banners:write"
    ∷ "banners:delete" ∷ "coupons:read" ∷ "coupons:write" ∷ "coupons:delete" ∷ []

abbrev pub staff_permissions : List String
staff_permissions =
    "users:read" ∷ "products:read" ∷ "products:write" ∷ "orders:read" ∷ "orders:manage"
    ∷ "categories:read" ∷ "services:read" ∷ "services:write" ∷ "staff:read" ∷ "appointments:read"
    ∷ "appointments:write" ∷ []

abbrev pub user_permissions : List String
user_permissions = "products:read" ∷ "orders:read" ∷ "appointments:read" ∷ "appointments:write" ∷ []

abbrev pub admin : DefaultRole
admin = record {
  name = "ADMIN";
  level = pos 100;
  description = "Tenant Administrator";
  permissions = default_permissions;
}

abbrev pub staff : DefaultRole
staff = record {
  name = "STAFF";
  level = pos 50;
  description = "Tenant Staff";
  permissions = staff_permissions;
}

abbrev pub user : DefaultRole
user = record {
  name = "USER";
  level = pos 1;
  description = "Registered User";
  permissions = user_permissions;
}

-- `createdPermissions.find((p) => p.name === permName)?.id`
abbrev pub id_of : List Permission → String → Option String
id_of [] name = none
id_of (p ∷ ps) name = let rest = id_of ps name in if str_eq p.name name then some p.id else rest

-- `.map(…).filter((id) => id !== undefined)`
abbrev pub ids_of : List Permission → List String → List String
ids_of ps [] = []
ids_of ps (name ∷ names) =
    let rest = ids_of ps names in elim (id_of ps name) [ none ↦ rest | some id ↦ id ∷ rest ]

abbrev pub preset : List Permission → DefaultRole → RolePreset
preset ps r = record {
  name = r.name;
  level = r.level;
  description = r.description;
  permission_ids = ids_of ps r.permissions;
}

abbrev pub new_tenant : CreateTenantDto → TenantChanges
new_tenant d = record {
  name = some d.name;
  slug = some d.slug;
  type = some d.type;
  config = d.config;
  active = some true;
}

module _ {S : Type 0} (tenants : TenantRepository S) (users : AccountRepository S)
    (roles : RoleStore S) (permissions : PermissionStore S) where
  unfoldable pub upsert_all : String → List String → Action S (List Permission)
  upsert_all tenant [] s = pure [] s
  upsert_all tenant (name ∷ names) s =
      (permissions.upsert_by_name tenant name ("Permission for " <> name) >>= λ p.
      upsert_all tenant names >>= λ ps. pure (p ∷ ps))
        s

  -- The roles in turn, and the last one named ADMIN.
  unfoldable pub create_roles :
      String → List Permission → List DefaultRole → Option Role → Action S (Option Role)
  create_roles tenant ps [] chosen s = pure chosen s
  create_roles tenant ps (r ∷ rs) chosen s =
      (roles.create_with_permissions tenant (preset ps r) >>= λ created.
      create_roles tenant ps rs (if str_eq r.name "ADMIN" then some created else chosen))
        s

  abbrev pub appoint : String → String → Option Role → Action S (Unit {0})
  appoint tenant creator none = pure tt
  appoint tenant creator (some role) = users.add_tenant creator tenant role.id

  unfoldable pub create_tenant : CreateTenantDto → String → Action S (UseCaseResult Tenant)
  create_tenant d creator = do
    existing ← query (tenants.find_by_slug d.slug)
    throw_if (is_some existing) (duplicate_entity_error "Tenant" "slug" d.slug)
    tenant ← tenants.create (new_tenant d)
    ps ← upsert_all tenant.id default_permissions
    role ← create_roles tenant.id ps (admin ∷ staff ∷ user ∷ []) none
    appoint tenant.id creator role
    pure (success_of (some tenant) "Tenant created successfully")
