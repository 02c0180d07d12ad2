-- ===== src/Account/Register.antt =====
-- core/application/auth/register.use-case.ts
use api_neutra_v.Prelude.{
  true, false, not, ◌||◌, String, Option, none, some, any, find, str_eq, truthy, present,
  or_default, if◌then◌else◌,
}
use api_neutra_v.Prelude.Int.{pos}
use api_neutra_v.Errors.{
  DomainError, validation_error, entity_not_found_error, duplicate_entity_error,
  business_rule_violation_error,
}
use api_neutra_v.Runtime.{
  Action, ◌>>=◌, ◌>>◌, pure, query, throw, throw_if, or_throw, try_catch, UseCaseResult, success_of,
}
use api_neutra_v.Access.{
  Role, UserTenant, User, TokenRole, JwtPayload, PasswordHasher, TokenGenerator, superadmin_slug,
}
use api_neutra_v.Access.Session.{is_login_tenant, token_role}
use api_neutra_v.Team.{RoleRepository, named}
use api_neutra_v.Tenant.{Tenant, TenantRepository}
use api_neutra_v.Account.{
  UserCreateData, AccountRepository, no_options, everything, AccountQueue, welcome_email,
}

-- The user without the password, and the token.
pub record AuthResult : Type 0 where
  pub user : User
  pub token : String

abbrev pub user_role : String
user_role = "USER"

abbrev tenant_id_of : Option Tenant → Option String
tenant_id_of none = none
tenant_id_of (some t) = some t.id

abbrev pub new_account : UserCreateData → String → UserCreateData
new_account d hash = record {
  name = d.name;
  email = d.email;
  password = some hash;
  profile_pic = d.profile_pic;
  phone = none;
  push_token = none;
  active = none;
  google_id = none;
  facebook_id = none;
  twitter_id = none;
  github_id = none;
}

abbrev pub taken : String → String → User → DomainError
taken tenant email u =
    if any (is_login_tenant (some tenant)) u.tenants
    then duplicate_entity_error "User" "tenant" tenant
    else duplicate_entity_error "User" "email" email

abbrev role_of : Option UserTenant → Option Role
role_of none = none
role_of (some ut) = ut.role

abbrev role_or_empty : Option Role → TokenRole
role_or_empty none = record { id = ""; name = ""; level = pos 0 }
role_or_empty (some r) = token_role r

abbrev pub registered_payload : String → User → JwtPayload
registered_payload tenant u = record {
  id = u.id;
  email = u.email;
  name = u.name;
  role = role_or_empty (role_of (find (λ ut. str_eq ut.tenant_id tenant) u.tenants));
  tenant_id = some tenant;
}

abbrev pub without_password : User → User
without_password u = record u { password = none }

abbrev pub no_user_role : DomainError
no_user_role =
    business_rule_violation_error
      "Default role 'USER' not found for tenant. Please ensure the tenant is correctly initialized."

module _ {S : Type 0} (users : AccountRepository S) (hasher : PasswordHasher)
    (tokens : TokenGenerator) (queue : AccountQueue S) (tenants : TenantRepository S)
    (roles : RoleRepository S) where
  unfoldable pub home_tenant : Option String → Action S (Option String)
  home_tenant requested s = elim (present requested) [
    | true ↦ pure requested s
    | false ↦ (do found ← query (tenants.find_by_slug superadmin_slug); pure (tenant_id_of found)) s
  ]

  abbrev pub refuse_taken : String → String → Option User → Action S (Unit {0})
  refuse_taken tenant email none = pure tt
  refuse_taken tenant email (some u) = throw (taken tenant email u)

  abbrev pub welcome : String → Option String → User → Action S (Unit {0})
  welcome tenant origin u =
      try_catch (queue.enqueue "notifications" (welcome_email u.email u.name tenant origin))
        (λ _. pure tt)

  -- The account and its membership, in this order.
  unfoldable pub enroll : String → UserCreateData → Action S User
  enroll tenant d = do
    user ← users.create d
    known ← query (roles.find_by_name tenant user_role)
    role ← or_throw known no_user_role
    users.add_tenant user.id tenant role.id
    joined ← query (users.find_by_id user.id everything)
    or_throw joined (business_rule_violation_error "User creation failed")

  unfoldable pub register :
      Option String → UserCreateData → Option String → Action S (UseCaseResult AuthResult)
  register requested d origin = do
    resolved ← home_tenant requested
    tenant ←
        or_throw (named resolved)
          (entity_not_found_error "Tenant" (or_default resolved "undefined"))
    throw_if (not (truthy d.email) || not (present d.password) || not (truthy d.name))
        (validation_error "Email, password, and name are required")
    found ← query (users.find_by_email d.email no_options)
    refuse_taken tenant d.email found
    hash ← query (λ _. hasher.hash (or_default d.password ""))
    user ← enroll tenant (new_account d hash)
    welcome tenant origin user
    pure (
        success_of
          (some (record {
            user = without_password user;
            token = tokens.generate (registered_payload tenant user);
          }))
          "User created successfully")
