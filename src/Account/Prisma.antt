-- ===== src/Account/Prisma.antt =====
-- infrastructure/database/prisma/user.prisma-repository.ts, over a Prisma client that is a parameter.
pub mod Stats
pub mod Database
pub mod Laws
pub mod Resets
use mathlib.Core.Option
use api_neutra_v.Prelude.{
  ℕ, Bool, true, false, ◌&&◌, not, String, Option, none, some, List, [], ◌∷◌, map, or_default,
  present, is_text, str_eq, if◌then◌else◌,
}
use api_neutra_v.Prelude.Int.{ℤ, pos, ◌-ℤ◌, ltb_ℤ}
use api_neutra_v.Errors.{Thrown, entity_not_found_error, not_found_handler, duplicate_handler}
use api_neutra_v.Runtime.{
  Result, Action, ◌>>=◌, ◌>>◌, pure, query, or_throw, rethrow, returns, ask, Time,
}
use api_neutra_v.Access.{User, UserTenant, Role, Permission, TenantRef}
use api_neutra_v.Account.{
  UserCreateData, UserChanges, FindUserOptions, SummaryStats, AccountRepository, with_role_only,
}
use api_neutra_v.Account.Password.{no_changes}
use api_neutra_v.Account.Prisma.Stats.{months}

pub record RoleRow : Type 0 where
  pub id : String
  pub name : String
  pub description : Option String
  pub level : ℤ
  pub active : Bool
  pub permissions : Option (List Permission)

pub record TenantRow : Type 0 where
  pub id : String
  pub user_id : String
  pub tenant_id : String
  pub role_id : String
  pub role : Option RoleRow
  pub tenant : Option TenantRef

pub record UserRow : Type 0 where
  pub id : String
  pub name : String
  pub email : String
  pub password : String
  pub profile_pic : Option String
  pub phone : Option String
  pub push_token : Option String
  pub active : Bool
  pub google_id : Option String
  pub facebook_id : Option String
  pub twitter_id : Option String
  pub github_id : Option String
  pub reset_password_token : Option String
  pub reset_password_expires : Option Time
  pub tenants : List TenantRow

-- `where`, `create` of an upsert of a membership.
pub record MembershipKey : Type 0 where
  pub user_id : String
  pub tenant_id : String

pub record NewMembership : Type 0 where
  pub user_id : String
  pub tenant_id : String
  pub role_id : String

-- `find_user` is `findUnique` or `findFirst` with a `where`, which is a test on rows; it joins the
-- permissions of the roles or not. The users of a tenant are those with a membership, a product or
-- an order there. An upsert has the role that an update writes, and the new membership.
pub record UserClient (DB : Type 0) : Type 0 where
  pub find_many : Option String → DB → Result (List UserRow)
  pub find_user : Bool → (UserRow → Bool) → DB → Result (Option UserRow)
  pub find_provider : String → String → DB → Result (Option UserRow)
  pub find_role : String → String → DB → Result (List UserRow)
  pub find_months : Option String → DB → Result (List String)
  pub count_users : Option String → DB → Result ℤ
  pub count_admins : Option String → DB → Result ℤ
  pub create_user : UserCreateData → Action DB UserRow
  pub update_id : String → UserChanges → Action DB UserRow
  pub update_email : String → String → String → Option String → Action DB (Unit {0})
  pub delete_user : String → Action DB UserRow
  pub upsert_tenant : MembershipKey → String → NewMembership → Action DB (Unit {0})
  pub delete_tenant : String → String → Action DB (Unit {0})
  pub find_tenants : String → DB → Result (List TenantRow)

abbrev pub map_role_from_prisma : RoleRow → Role
map_role_from_prisma r = record {
  id = r.id;
  name = r.name;
  description = r.description;
  level = r.level;
  active = r.active;
  permissions = some (or_default r.permissions []);
}

abbrev pub map_tenant_relation : TenantRow → UserTenant
map_tenant_relation ut = record {
  id = ut.id;
  user_id = ut.user_id;
  tenant_id = ut.tenant_id;
  role_id = ut.role_id;
  role = Option.map map_role_from_prisma ut.role;
  tenant = ut.tenant;
}

abbrev pub first_role : List UserTenant → Option Role
first_role [] = none
first_role (ut ∷ rest) = ut.role

abbrev pub first_tenant_ref : List UserTenant → Option TenantRef
first_tenant_ref [] = none
first_tenant_ref (ut ∷ rest) = ut.tenant

abbrev pub map_to_user : UserRow → User
map_to_user r = record {
  id = r.id;
  name = r.name;
  email = r.email;
  password = some r.password;
  profile_pic = r.profile_pic;
  phone = r.phone;
  push_token = r.push_token;
  active = r.active;
  google_id = r.google_id;
  facebook_id = r.facebook_id;
  twitter_id = r.twitter_id;
  github_id = r.github_id;
  tenants = map map_tenant_relation r.tenants;
  tenant = first_tenant_ref (map map_tenant_relation r.tenants);
  role = first_role (map map_tenant_relation r.tenants);
  reset_password_token = r.reset_password_token;
  reset_password_expires = r.reset_password_expires;
}

abbrev pub has_email : String → UserRow → Bool
has_email email r = str_eq r.email email

abbrev pub has_id : String → UserRow → Bool
has_id id r = str_eq r.id id

-- `{ gt: new Date() }`; an absent instant is not later.
abbrev pub is_later : Time → Option Time → Bool
is_later now none = false
is_later now (some end) = ltb_ℤ now end

abbrev pub opened_by : String → Time → UserRow → Bool
opened_by token now r =
    is_text r.reset_password_token token && is_later now r.reset_password_expires

-- What `create` and `update` pass on: not the id at Twitter.
abbrev pub create_columns : UserCreateData → UserCreateData
create_columns d = record d { twitter_id = none; active = some (or_default d.active true) }

abbrev pub update_columns : UserChanges → UserChanges
update_columns d = record d { twitter_id = none }

abbrev pub update_handler : String → Option String → Thrown → Thrown
update_handler id email e =
    duplicate_handler "User" "email" (or_default email "") (not_found_handler "User" id e)

module _ {DB : Type 0} (client : UserClient DB) (compare : String → String → ℤ) where
  unfoldable pub find_all : Option String → DB → Result (List User)
  find_all tenant db = ask (map map_to_user) (client.find_many tenant db)

  unfoldable pub find_by_email : String → FindUserOptions → DB → Result (Option User)
  find_by_email email options db =
      ask (Option.map map_to_user) (
        client.find_user (options.include_role && options.include_permissions) (has_email email) db)

  unfoldable pub find_by_id : String → FindUserOptions → DB → Result (Option User)
  find_by_id id options db =
      ask (Option.map map_to_user)
        (client.find_user (options.include_role && options.include_permissions) (has_id id) db)

  unfoldable pub create : UserCreateData → Action DB User
  create d =
      rethrow (duplicate_handler "User" "email" d.email)
        (returns map_to_user (client.create_user (create_columns d)))

  unfoldable pub update : String → UserChanges → Action DB User
  update id d =
      rethrow (update_handler id d.email)
        (returns map_to_user (client.update_id id (update_columns d)))

  unfoldable pub find_by_provider : String → String → DB → Result (Option User)
  find_by_provider field id db = ask (Option.map map_to_user) (client.find_provider field id db)

  unfoldable pub link_provider : String → String → String → Option String → Action DB User
  link_provider email field id picture = do
    client.update_email email field id (if present picture then picture else none)
    updated ← query (find_by_email email with_role_only)
    or_throw updated (entity_not_found_error "User" email)

  unfoldable pub get_users_stats : Option String → DB → Result (List (String × ℕ))
  get_users_stats tenant db = ask (months compare) (client.find_months tenant db)

  abbrev pub summary : ℤ × ℤ → SummaryStats
  summary (total, admins) = record {
    total_users = total;
    admin_users = admins;
    regular_users = total -ℤ admins;
  }

  unfoldable pub get_summary_stats : Option String → Action DB SummaryStats
  get_summary_stats tenant = do
    total ← query (client.count_users tenant)
    admins ← query (client.count_admins tenant)
    pure (summary (total, admins))

  unfoldable pub find_by_role_id : String → String → DB → Result (List User)
  find_by_role_id tenant role db = ask (map map_to_user) (client.find_role tenant role db)

  unfoldable pub find_by_reset_token : String → Time → DB → Result (Option User)
  find_by_reset_token token now db =
      ask (Option.map map_to_user) (client.find_user false (opened_by token now) db)

  unfoldable pub add_tenant : String → String → String → Action DB (Unit {0})
  add_tenant id tenant role =
      client.upsert_tenant (record { user_id = id; tenant_id = tenant }) role
        (record { user_id = id; tenant_id = tenant; role_id = role })

  unfoldable pub delete : String → Action DB (Unit {0})
  delete id = returns (λ _. tt) (client.delete_user id)

  unfoldable pub get_user_tenants : String → DB → Result (List UserTenant)
  get_user_tenants id db = ask (map map_tenant_relation) (client.find_tenants id db)

  abbrev pub user_repository : AccountRepository DB
  user_repository = record {
    find_all = find_all;
    find_by_email = find_by_email;
    find_by_id = find_by_id;
    find_by_provider = find_by_provider;
    create = create;
    update = update;
    link_provider = link_provider;
    get_users_stats = get_users_stats;
    get_summary_stats = λ tenant db. (get_summary_stats tenant db).0;
    find_by_role_id = find_by_role_id;
    find_by_reset_token = find_by_reset_token;
    delete = delete;
    add_tenant = add_tenant;
    remove_tenant = client.delete_tenant;
    get_user_tenants = get_user_tenants;
  }
