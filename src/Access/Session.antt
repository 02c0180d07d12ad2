-- ===== src/Access/Session.antt =====
-- core/application/auth: login and resolve-authenticated-user.
use api_neutra_v.Prelude.{
  Bool, true, false, not, ◌&&◌, ◌||◌, String, Option, none, some, List, [], map, find, is_text,
  truthy, present, or_default, or_else, ◌<>◌, if◌then◌else◌,
}
use api_neutra_v.Errors.{validation_error, unauthorized_error, forbidden_error}
use api_neutra_v.Runtime.{
  Action, ◌>>=◌, ◌>>◌, pure, query, throw_if, or_throw, when, UseCaseResult, success_of,
}
use api_neutra_v.Access.{
  Role, TenantRef, UserTenant, User, TokenRole, JwtPayload, AuthenticatedUser, super_admin,
  superadmin_slug, UserRepository, CacheProvider, PasswordHasher, TokenGenerator,
}

pub record LoginDto : Type 0 where
  pub email : String
  pub password : String

-- The user without the password, the token, and the role in the tenant.
pub record LoginResult : Type 0 where
  pub user : User
  pub token : String
  pub role : Role
  pub role_id : String

pub record ResolveAuthInput : Type 0 where
  pub token : String
  pub tenant_id : Option String
  pub tenant_slug : Option String

abbrev pub slug_of : Option TenantRef → Option String
slug_of none = none
slug_of (some t) = some t.slug

-- `a === b` on texts that may be undefined.
abbrev same_text : Option String → Option String → Bool
same_text none none = true
same_text none (some b) = false
same_text (some a) b = is_text b a

abbrev pub role_name : Option Role → Option String
role_name none = none
role_name (some r) = some r.name

abbrev pub is_global_super_admin : UserTenant → Bool
is_global_super_admin ut =
    is_text (slug_of ut.tenant) superadmin_slug && is_text (role_name ut.role) super_admin

-- `ut.tenantId === tenantId || ut.tenant?.slug === tenantId`
abbrev pub is_login_tenant : Option String → UserTenant → Bool
is_login_tenant tenant ut = is_text tenant ut.tenant_id || same_text (slug_of ut.tenant) tenant

-- `ut.tenantId === tenantId || (tenantSlug && ut.tenant?.slug === tenantSlug)`
abbrev pub is_request_tenant : Option String → Option String → UserTenant → Bool
is_request_tenant tenant slug ut =
    is_text tenant ut.tenant_id || present slug && same_text (slug_of ut.tenant) slug

abbrev pub permission_names : Role → List String
permission_names r = map (λ p. p.name) (or_default r.permissions [])

abbrev pub token_role : Role → TokenRole
token_role r = record { id = r.id; name = r.name; level = r.level }

abbrev pub cache_key : String → String → String
cache_key user tenant = "user:permissions:" <> user <> ":" <> tenant

-- The membership that counts, with its role.
abbrev pub with_role : Option UserTenant → Option (UserTenant × Role)
with_role none = none
with_role (some ut) = elim ut.role [ none ↦ none | some r ↦ some (ut, r) ]

abbrev pub with_password : Option User → Option (User × String)
with_password none = none
with_password (some u) = elim u.password [
  | none ↦ none
  | some p ↦ if truthy p then some (u, p) else none
]

abbrev pub payload : User → UserTenant → Role → JwtPayload
payload u ut r = record {
  id = u.id;
  email = u.email;
  name = u.name;
  role = token_role r;
  tenant_id = some ut.tenant_id;
}

abbrev pub first_text : Option String → Option String → Option String
first_text a b = if present a then a else b

module _ {S : Type 0} (users : UserRepository S) (hasher : PasswordHasher) (tokens : TokenGenerator)
    (cache : CacheProvider S) where
  unfoldable pub login : Option String → LoginDto → Action S (UseCaseResult LoginResult)
  login tenant d = do
    throw_if (not (truthy d.email) || not (truthy d.password))
        (validation_error "Email and password are required")
    found ← query (users.find_by_email d.email)
    (user, hash) ← or_throw (with_password found) (unauthorized_error "Invalid credentials")
    valid ← query (λ _. hasher.compare d.password hash)
    throw_if (not valid) (unauthorized_error "Invalid credentials")
    (ut, role) ←
        or_throw
          (with_role (
            or_else (find (is_login_tenant tenant) user.tenants)
              (find is_global_super_admin user.tenants)))
          (forbidden_error "User is not authorized for this tenant")
    cache.set (cache_key user.id (or_default tenant "undefined")) (permission_names role) 3600
    pure (
        success_of
          (some (record {
            user = record user { password = none };
            token = tokens.generate (payload user ut role);
            role = role;
            role_id = ut.role_id;
          }))
          "Login successful")

  -- The role and the permissions from a membership, which are cached for a named tenant.
  abbrev pub granted :
      JwtPayload → Option String → Option (UserTenant × Role) → Action S (TokenRole × List String)
  granted decoded tenant none = pure (decoded.role, [])
  granted decoded tenant (some (ut, role)) = do
    when (present tenant)
        (cache.set (cache_key decoded.id (or_default tenant "")) (permission_names role) 3600)
    pure (token_role role, permission_names role)

  unfoldable pub load :
      JwtPayload → Option String → Option String → Action S (TokenRole × List String)
  load decoded tenant slug = do
    found ← query (users.find_by_id decoded.id)
    user ← or_throw found (unauthorized_error "User not found")
    throw_if (not user.active) (forbidden_error "Account is inactive")
    granted decoded tenant (
        with_role (
          or_else (find (is_request_tenant tenant slug) user.tenants)
            (find is_global_super_admin user.tenants)))

  abbrev pub cached_or_load :
      JwtPayload
      → Option String
      → Option String
      → Option (List String)
      → Action S (TokenRole × List String)
  cached_or_load decoded tenant slug (some permissions) = pure (decoded.role, permissions)
  cached_or_load decoded tenant slug none = load decoded tenant slug

  abbrev pub with_permissions : JwtPayload → TokenRole × List String → AuthenticatedUser
  with_permissions decoded (role, permissions) = record {
    id = decoded.id;
    email = decoded.email;
    name = decoded.name;
    role = record { id = role.id; name = role.name; level = role.level; permissions = permissions };
    tenant_id = decoded.tenant_id;
  }

  abbrev pub request_key : JwtPayload → Option String → String
  request_key decoded tenant =
      cache_key decoded.id (if present tenant then or_default tenant "" else "global")

  unfoldable pub resolve_authenticated_user : ResolveAuthInput → Action S AuthenticatedUser
  resolve_authenticated_user input = do
    decoded ← query (λ _. tokens.verify input.token)
    let tenant = first_text input.tenant_id decoded.tenant_id in
        do
          cached ← query (cache.get (request_key decoded tenant))
          rights ← cached_or_load decoded tenant input.tenant_slug cached
          pure (with_permissions decoded rights)
