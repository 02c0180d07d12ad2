-- ===== src/Tests/Registered.antt =====
-- Registrations over the database of one user, and signing in afterwards.
use api_neutra_v.Prelude.{
  ◌≡◌, refl, ap, true, subst, truthy, inl, inr, Bool-cases, false, String, Option, none, some, [],
  ◌∷◌, str_eq, str_eq_iff,
}
use api_neutra_v.Prelude.Int.{pos}
use api_neutra_v.Errors.{domain, other}
use api_neutra_v.Runtime.{ok-injective, Result, ok, err, success_of, UseCaseResult, Refuses}
use api_neutra_v.Access.{Role, User, CacheProvider, TokenGenerator}
use api_neutra_v.Access.Session.{LoginResult, login}
use api_neutra_v.Team.{RoleRepository}
use api_neutra_v.Tenant.{TenantRepository}
use api_neutra_v.Account.{UserCreateData, no_options, signing_in}
use api_neutra_v.Account.Prisma.{
  UserRow, find_by_email, find_by_id, create, map_to_user, add_tenant,
}
use api_neutra_v.Account.Prisma.Laws.{user_repository-IsAccounts}
use api_neutra_v.Account.Register.{
  AuthResult, user_role, no_user_role, new_account, enroll, home_tenant, register, without_password,
}
use api_neutra_v.Account.Registered.{IsHasher, register_then_login, register_without_role}
use api_neutra_v.Tests.Accounts.{
  Db, rows, client, store, accounts, client-IsUserClient, member_of, new_row,
}
use api_neutra_v.Tests.Reset.{scrambled, hasher, queue, queue-IsMailing}

scrambled_lem : (password : String) → truthy (scrambled password) ≡ true
scrambled_lem password = elim (Bool-cases (str_eq password "")) [
  | inl e ↦ rw e refl
  | inr e ↦ rw e (rw e refl)
]

hasher-IsHasher : IsHasher hasher
hasher-IsHasher = record {
  hash_lem = λ password hash hashed. (
    subst (λ h. truthy h ≡ true) {x = scrambled password} {y = hash} (ok-injective hashed)
        (scrambled_lem password),
    ap ok ((str_eq_iff (scrambled password) hash).1 (ok-injective hashed)),
  );
}

abbrev tokens : TokenGenerator
tokens = record { generate = λ q. "token"; verify = λ t. err other }

abbrev cache : CacheProvider Db
cache = record {
  get = λ key s. ok none;
  set = λ key v ttl s. (ok tt, s);
  del = λ key s. (ok tt, s);
}

abbrev tenants : TenantRepository Db
tenants = record {
  find_by_id = λ id s. ok none;
  find_by_slug = λ slug s. ok none;
  find_all = λ s. ok [];
  create = λ d s. (err other, s);
  update = λ id d s. (err other, s);
  delete = λ id s. (ok tt, s);
}

abbrev user : Role
user = record {
  id = "r2";
  name = "USER";
  description = none;
  level = pos 1;
  active = true;
  permissions = none;
}

abbrev roles : Option Role → RoleRepository Db
roles found = record {
  find_by_id = λ tenant id s. ok found;
  find_by_name = λ tenant name s. ok found;
}

abbrev eva : UserCreateData
eva = record {
  name = "Eva";
  email = "eva@shop";
  password = some "secret";
  profile_pic = none;
  phone = none;
  push_token = none;
  active = none;
  google_id = none;
  facebook_id = none;
  twitter_id = none;
  github_id = none;
}

abbrev row : UserRow
row = new_row (new_account eva "secret") "secret"

abbrev joined : UserRow
joined = record row { tenants = member_of "u1" "t1" "r2" ∷ [] }

abbrev answer : UseCaseResult AuthResult
answer =
    success_of (some (record { user = without_password (map_to_user joined); token = "token" }))
      "User created successfully"

run :
    register store hasher tokens queue tenants (roles (some user)) (some "t1") eva none none
    ≡ (ok answer, some joined)
unfolding register enroll home_tenant find_by_email find_by_id create add_tenant
run = refl

register_then_login_example :
    (l : LoginResult) × (s₁ : Db) × (login
        (signing_in store)
        hasher
        tokens
        cache
        (some "t1")
        (record { email = "eva@shop"; password = "secret" })
        (some joined)
      ≡ (ok (success_of (some l) "Login successful"), s₁))
    × (l.user.email ≡ "eva@shop")
    × (s₀ : Db) × (role : Role) × ((roles (some user)).find_by_name "t1" user_role s₀
        ≡ ok (some role))
    × (l.role.id ≡ role.id)
register_then_login_example =
    register_then_login store accounts
      (user_repository-IsAccounts client (λ a b. pos 0) rows client-IsUserClient) hasher tokens
      queue tenants (roles (some user)) queue-IsMailing hasher-IsHasher cache
      (λ key v ttl s. (s, refl)) "t1" "secret" eva none none (some joined) answer refl refl run

made : store.create (new_account eva "secret") none ≡ (ok (map_to_user row), some row)
unfolding create
made = refl

free : ◌≡◌ {A = Result (Option User)} (store.find_by_email "eva@shop" no_options none) (ok none)
unfolding find_by_email
free = refl

register_without_role_example :
    (register store hasher tokens queue tenants (roles none) (some "t1") eva none none
      ≡ (err (domain no_user_role), some row))
    × (accounts false "u1" (some row) ≡ some (map_to_user row))
    × Refuses 409
        (some row)
        (register store hasher tokens queue tenants (roles none) (some "t1") eva none (some row))
register_without_role_example =
    register_without_role store accounts
      (user_repository-IsAccounts client (λ a b. pos 0) rows client-IsUserClient) hasher tokens
      queue tenants (roles none) "t1" "secret" "secret" eva none none (some row) (map_to_user row)
      refl refl refl refl refl refl free made refl
