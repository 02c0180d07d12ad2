-- ===== src/Account/Social.antt =====
-- Signing in by a provider: core/application/auth/social-login.use-case.ts and
-- core/application/users/get-or-create-by-provider.use-case.ts.
use api_neutra_v.Prelude.{
  Bool, true, false, not, ◌||◌, String, Option, none, some, List, [], ◌∷◌, any, find, str_eq,
  truthy, or_else, or_default, ◌<>◌, if◌then◌else◌,
}
use api_neutra_v.Errors.{business_rule_violation_error, business_rule_violation_as, forbidden_error}
use api_neutra_v.Runtime.{
  or_null, Action, ◌>>=◌, ◌>>◌, pure, query, throw_if, or_throw, UseCaseResult, success_of,
}
use api_neutra_v.Access.{User, TokenGenerator}
use api_neutra_v.Access.Session.{is_login_tenant, payload, with_role}
use api_neutra_v.Team.{RoleRepository, named}
use api_neutra_v.Account.{
  UserCreateData, UserChanges, AccountRepository, no_options, with_role_only, everything,
}
use api_neutra_v.Account.Password.{no_changes}
use api_neutra_v.Account.Register.{AuthResult, user_role, without_password}

pub record SocialLoginDto : Type 0 where
  pub provider : String
  pub id : String
  pub display_name : Option String
  pub emails : Option (List String)
  pub photos : Option (List String)

pub record ProviderDataDto : Type 0 where
  pub provider : String
  pub id_provider : String
  pub name : String
  pub email : String
  pub profile_pic : Option String

-- `{ created, user }`
pub record ProviderResult : Type 0 where
  pub created : Bool
  pub user : User

abbrev pub first_of : Option (List String) → Option String
first_of none = none
first_of (some []) = none
first_of (some (x ∷ xs)) = some x

-- `{ [providerField]: providerId }`, of which the repository reads the fields that it has.
abbrev pub provider_changes : String → String → UserChanges
provider_changes field id = record no_changes {
  google_id = if str_eq field "googleId" then some id else none;
  facebook_id = if str_eq field "facebookId" then some id else none;
  twitter_id = if str_eq field "twitterId" then some id else none;
  github_id = if str_eq field "githubId" then some id else none;
}

abbrev pub provider_account :
    String → String → String → Option String → String → String → UserCreateData
provider_account name email password picture field id = record {
  name = name;
  email = email;
  password = some password;
  profile_pic = picture;
  phone = none;
  push_token = none;
  active = none;
  google_id = if str_eq field "googleId" then some id else none;
  facebook_id = if str_eq field "facebookId" then some id else none;
  twitter_id = if str_eq field "twitterId" then some id else none;
  github_id = if str_eq field "githubId" then some id else none;
}

abbrev pub provider_field : String → String
provider_field provider = provider <> "Id"

abbrev pub in_tenant : String → User → Bool
in_tenant tenant u = any (is_login_tenant (some tenant)) u.tenants

module _ {S : Type 0} (users : AccountRepository S) (roles : RoleRepository S) (uid : String) where
  -- The account with the e-mail gets the id at the provider, or a new account has it. The password
  -- of a new account is the answer of the generator of ids.
  abbrev pub link_or_create : SocialLoginDto → String → Option User → Action S User
  link_or_create d email none = users.create (
      provider_account (or_default (named d.display_name) "User") email uid (first_of d.photos)
        (provider_field d.provider) d.id)
  link_or_create d email (some u) =
      users.update u.id (record (provider_changes (provider_field d.provider) d.id) {
        profile_pic = or_else (first_of d.photos) u.profile_pic;
      })

  abbrev pub social_user : SocialLoginDto → String → Option User → Action S User
  social_user d email (some u) = pure u
  social_user d email none = do
    found ← query (users.find_by_email email no_options)
    link_or_create d email found

  -- A user who is not in the tenant joins it with the role USER.
  abbrev pub join : String → User → Action S User
  join tenant u = do
    known ← query (roles.find_by_name tenant user_role)
    role ← or_throw known (
        business_rule_violation_as ("Default role 'USER' not found for tenant " <> tenant)
          "TENANT_NOT_FOUND")
    users.add_tenant u.id tenant role.id
    found ← query (users.find_by_id u.id everything)
    or_null "tenants" found

  abbrev pub join_unless : String → User → Action S User
  join_unless tenant u s = elim (in_tenant tenant u) [ true ↦ pure u s | false ↦ join tenant u s ]

  unfoldable pub social_login :
      TokenGenerator → String → SocialLoginDto → Action S (UseCaseResult AuthResult)
  social_login tokens tenant d = do
    throw_if (not (truthy d.id)) (business_rule_violation_error "Invalid provider data")
    email ←
        or_throw (named (first_of d.emails)) (business_rule_violation_error "Invalid provider data")
    linked ← query (users.find_by_provider (provider_field d.provider) d.id)
    account ← social_user d email linked
    user ← join_unless tenant account
    (ut, role) ←
        or_throw (with_role (find (is_login_tenant (some tenant)) user.tenants))
          (forbidden_error "User not authorized for this tenant")
    pure (
        success_of
          (some (record {
            user = without_password user;
            token = tokens.generate (payload user ut role);
          }))
          "Login successful")

  abbrev link_or_make : ProviderDataDto → Option User → Action S ProviderResult
  link_or_make d (some u) = do
    user ← users.link_provider d.email (provider_field d.provider) d.id_provider d.profile_pic
    pure (record { created = false; user = user })
  link_or_make d none = do
    user ← users.create (
        provider_account d.name d.email uid d.profile_pic (provider_field d.provider) d.id_provider)
    pure (record { created = true; user = user })

  abbrev provider_user : ProviderDataDto → Option User → Action S ProviderResult
  provider_user d (some u) = pure (record { created = false; user = u })
  provider_user d none = do
    found ← query (users.find_by_email d.email no_options)
    link_or_make d found

  -- Joining a tenant here makes a cart too, whose creation is the first argument.
  abbrev pub settle_in :
      (String → String → Action S (Unit {0})) → String → User → Action S (Option User)
  settle_in create_cart tenant u = do
    role ← query (roles.find_by_name tenant user_role)
    elim role [ none ↦ pure tt | some r ↦ users.add_tenant u.id tenant r.id ]
    create_cart tenant u.id
    query (users.find_by_id u.id with_role_only)

  abbrev pub settle_unless :
      (String → String → Action S (Unit {0})) → Option String → User → Action S (Option User)
  settle_unless create_cart none u s = pure (some u) s
  settle_unless create_cart (some tenant) u s = elim (not (truthy tenant) || in_tenant tenant u) [
    | true ↦ pure (some u) s
    | false ↦ settle_in create_cart tenant u s
  ]

  unfoldable pub get_or_create_by_provider :
      (String → String → Action S (Unit {0}))
      → Option String
      → ProviderDataDto
      → Action S (UseCaseResult (Bool × Option User))
  get_or_create_by_provider create_cart tenant d = do
    linked ← query (users.find_by_provider (provider_field d.provider) d.id_provider)
    account ← provider_user d linked
    user ← settle_unless create_cart tenant account.user
    pure (
        success_of (some (account.created, user))
          (if account.created then "User created via provider" else "User found or linked"))
