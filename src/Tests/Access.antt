-- ===== src/Tests/Access.antt =====
-- Signing in and the guards: runs over a cache in memory, and the theorems at inputs.
use api_neutra_v.Prelude.{
  ◌≡◌, ◌⊎◌, inr, refl, trim, true, false, String, Option, none, some, List, filter, not, [], ◌∷◌,
  All, Member, str_eq, str_eq_iff, if◌then◌else◌,
}
use api_neutra_v.Prelude.Int.{pos}
use api_neutra_v.Runtime.{ok, success_of}
use api_neutra_v.Access.{
  Role, UserTenant, User, JwtPayload, AuthenticatedUser, UserRepository, CacheProvider,
  PasswordHasher, TokenGenerator,
}
use api_neutra_v.Access.Guards.{require_all_permissions}
use api_neutra_v.Access.Granted.{Guards, require_all_permissions-Guards}
use api_neutra_v.Access.Session.{
  LoginDto, LoginResult, ResolveAuthInput, login, load, payload, token_role, permission_names,
  with_permissions, resolve_authenticated_user,
}
use api_neutra_v.Access.Authenticate.{
  SignedRequest, passes, answers, authenticate, optional_authenticate,
}
use api_neutra_v.Access.Admitted.{IsSigned, optional_agrees, login_then_authenticate}
use api_neutra_v.Errors.Middleware.{ErrorResponse}
use api_neutra_v.Tests.People.{person}
use api_neutra_v.Access.SignedIn.{IsCache, IsLoggedIn, login-IsLoggedIn}

abbrev Entries : Type 0
Entries = List (String × List String)

abbrev lookup : String → Entries → Option (List String)
lookup key [] = none
lookup key ((k, v) ∷ rest) = let found = lookup key rest in if str_eq k key then some v else found

abbrev cache : CacheProvider Entries
cache = record {
  get = λ key s. ok (lookup key s);
  set = λ key v ttl s. (ok tt, (key, v) ∷ s);
  del = λ key s. (ok tt, filter (λ e. not (str_eq e.0 key)) s);
}

cache-IsCache : IsCache cache
cache-IsCache = record { set_get = λ key v ttl s. rw ((str_eq_iff key key).1 refl) refl }

abbrev seller : Role
seller = record {
  id = "r1";
  name = "SELLER";
  description = none;
  level = pos 3;
  active = true;
  permissions =
      some (record { id = "x1"; name = "orders:read"; description = none; active = true } ∷ []);
}

abbrev membership : UserTenant
membership = record {
  id = "m1";
  user_id = "u1";
  tenant_id = "t1";
  role_id = "r1";
  role = some seller;
  tenant = some (record { id = "t1"; name = "Shop"; slug = "shop" });
}

-- The account is switched off.
abbrev eva : User
eva = record (person "u1" "Eva" "eva@shop") {
  password = some "hash";
  active = false;
  tenants = membership ∷ [];
}

abbrev users : User → UserRepository Entries
users u = record {
  find_by_email = λ email s. ok (some u);
  find_by_id = λ id s. ok (some u);
  add_tenant = λ user tenant role s. (ok tt, s);
}

abbrev hasher : PasswordHasher
hasher = record {
  hash = λ password. ok "hash";
  compare = λ password hash. ok (str_eq password "secret");
}

abbrev tokens : JwtPayload → TokenGenerator
tokens p = record { generate = λ q. "token"; verify = λ t. ok p }

abbrev dto : LoginDto
dto = record { email = "eva@shop"; password = "secret" }

abbrev signer : TokenGenerator
signer = tokens (payload eva membership seller)

abbrev signed_in : LoginResult
signed_in = record {
  user = record eva { password = none };
  token = "token";
  role = seller;
  role_id = "r1";
}

abbrev entries : Entries
entries = ("user:permissions:u1:t1", "orders:read" ∷ []) ∷ []

logged_in :
    login (users eva) hasher signer cache (some "t1") dto []
    ≡ (ok (success_of (some signed_in) "Login successful"), entries)
unfolding login
logged_in = refl

login-IsLoggedIn_example :
    (l : LoginResult) × (◌≡◌ {A = Option LoginResult} (some signed_in) (some l))
    × IsLoggedIn (users eva) hasher signer cache (some "t1") dto [] entries l
login-IsLoggedIn_example =
    login-IsLoggedIn (users eva) hasher signer cache (some "t1") dto [] entries
      (success_of (some signed_in) "Login successful") logged_in

abbrev eva_logged_in :
    IsLoggedIn (users eva) hasher signer cache (some "t1") dto [] entries signed_in
eva_logged_in = record {
  found = some eva;
  was_found = refl;
  user = eva;
  hash = "hash";
  has_password = refl;
  verified = refl;
  membership = membership;
  role = seller;
  member = refl;
  token = refl;
  role_given = refl;
  no_password = refl;
  stored = refl;
}

abbrev request : ResolveAuthInput
request = record { token = "token"; tenant_id = some "t1"; tenant_slug = none }

abbrev awake : User
awake = record eva { active = true }

abbrev eva_at_work : AuthenticatedUser
eva_at_work =
    with_permissions (users awake) hasher signer cache (payload eva membership seller)
      (token_role seller, permission_names seller)

resolved :
    resolve_authenticated_user (users awake) hasher signer cache request []
    ≡ (ok eva_at_work, entries)
unfolding resolve_authenticated_user load
resolved = refl

require_all_permissions-Guards_example :
    Guards eva_at_work
      (All {A = String} (λ p. Member p ("orders:read" ∷ [])) ("orders:read" ∷ "b" ∷ []))
      (require_all_permissions ("orders:read" ∷ "b" ∷ []) (some eva_at_work))
require_all_permissions-Guards_example =
    require_all_permissions-Guards ("orders:read" ∷ "b" ∷ []) eva_at_work

-- A request with the token in its header.
abbrev with_header : SignedRequest
with_header = record {
  cookie = some "  ";
  authorization = some "Bearer token";
  tenant_id = some "t1";
  tenant = none;
}

optional_agrees_example :
    ((u : AuthenticatedUser) × (s' : Entries) × IsSigned
        (users awake)
        hasher
        signer
        cache
        with_header
        u
        []
        s'
      × (authenticate (users awake) hasher signer cache with_header [] ≡ (ok (passes (some u)), s'))
      × (optional_authenticate (users awake) hasher signer cache with_header []
          ≡ (ok (passes (some u)), s')))
    ⊎ ((a : ErrorResponse) × (s' : Entries) × (authenticate
            (users awake)
            hasher
            signer
            cache
            with_header
            []
          ≡ (ok (answers a), s'))
        × (optional_authenticate (users awake) hasher signer cache with_header []
            ≡ (ok (passes none), s')))
optional_agrees_example = optional_agrees (users awake) hasher signer cache with_header []

login_then_authenticate_example :
    authenticate (users eva) hasher signer cache with_header entries ≡ (
      ok (
          passes (
            some (
              with_permissions
                (users eva)
                hasher
                signer
                cache
                (payload eva membership seller)
                (token_role seller, permission_names seller)))),
      entries,
    )
unfolding trim
login_then_authenticate_example =
    login_then_authenticate (users eva) hasher signer cache cache-IsCache "t1" dto [] entries
      signed_in with_header refl eva_logged_in refl refl refl (inr (refl, refl))
