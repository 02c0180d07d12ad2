-- ===== src/Roles/Prisma.antt =====
-- infrastructure/database/prisma: role.prisma-repository.ts, over
-- a Prisma client that is a parameter. A `where` is a test on rows.
pub mod Permissions
pub mod Laws
use mathlib.Core.Option
use api_neutra_v.Prelude.{
  Bool, true, false, not, ◌&&◌, ◌||◌, String, Option, none, some, List, [], ◌∷◌, map, is_some,
  is_text, str_eq, present, or_default, is_empty, if◌then◌else◌,
}
use api_neutra_v.Prelude.Int.{ℤ}
use api_neutra_v.Errors.{entity_not_found_error, duplicate_handler}
use api_neutra_v.Runtime.{
  Result, Action, ◌>>=◌, ◌>>◌, pure, query, throw_if, or_null, when, rethrow, returns, ask,
}
use api_neutra_v.Access.{Role, Permission}
use api_neutra_v.Team.{named}
use api_neutra_v.Roles.{
  RoleCreateData, RoleUpdateData, RolePreset, RoleStore, PermissionCreateData, PermissionUpdateData,
  PermissionStore,
}

pub record PermissionRow : Type 0 where
  pub id : String
  pub name : String
  pub description : Option String
  pub active : Bool
  pub tenant_id : Option String

pub record RoleRow : Type 0 where
  pub id : String
  pub name : String
  pub description : Option String
  pub level : ℤ
  pub active : Bool
  pub tenant_id : Option String
  pub permissions : List PermissionRow

-- The columns of a new role.
pub record RoleColumns : Type 0 where
  pub name : String
  pub description : Option String
  pub level : Option ℤ
  pub active : Option Bool
  pub tenant_id : Option String
  pub permission_ids : List String

pub record RoleClient (DB : Type 0) : Type 0 where
  pub find_many : (RoleRow → Bool) → DB → Result (List RoleRow)
  pub find_first : (RoleRow → Bool) → DB → Result (Option RoleRow)
  pub find_unique : String → DB → Result (Option RoleRow)
  pub create_role : RoleColumns → Action DB RoleRow
  pub update_role : String → RoleUpdateData → Action DB RoleRow
  pub delete_role : String → Action DB RoleRow
  pub delete_links : String → Action DB (Unit {0})
  pub create_links : String → List String → Action DB (Unit {0})
  pub create_link : String → String → Action DB (Unit {0})
  pub transaction : Action DB Role → Action DB Role

abbrev pub map_permission : PermissionRow → Permission
map_permission p = record {
  id = p.id;
  name = p.name;
  description = p.description;
  active = p.active;
}

abbrev pub map_role : RoleRow → Role
map_role r = record {
  id = r.id;
  name = r.name;
  description = r.description;
  level = r.level;
  active = r.active;
  permissions = some (map map_permission r.permissions);
}

-- `{ OR: [{ tenantId }, { tenantId: null }] }` for a named tenant, and no condition otherwise.
abbrev pub tenant_where : Option String → Option String → Bool
tenant_where requested owner =
    not (present requested) || not (is_some owner) || is_text owner (or_default requested "")

abbrev pub is_role : Option String → String → RoleRow → Bool
is_role tenant id r = str_eq r.id id && tenant_where tenant r.tenant_id

abbrev pub role_is_named : Option String → String → RoleRow → Bool
role_is_named tenant name r = str_eq r.name name && tenant_where tenant r.tenant_id

-- `permissionIds ? { create: … } : undefined`
abbrev new_role : Option String → RoleCreateData → RoleColumns
new_role tenant d = record {
  name = d.name;
  description = d.description;
  level = d.level;
  active = d.active;
  tenant_id = named tenant;
  permission_ids = or_default d.permission_ids [];
}

abbrev preset_role : String → RolePreset → RoleColumns
preset_role tenant d = record {
  name = d.name;
  description = some d.description;
  level = some d.level;
  active = some true;
  tenant_id = some tenant;
  permission_ids = d.permission_ids;
}

module _ {DB : Type 0} (client : RoleClient DB) where
  unfoldable pub find_by_id : Option String → String → DB → Result (Option Role)
  find_by_id tenant id db = ask (Option.map map_role) (client.find_first (is_role tenant id) db)

  unfoldable pub find_by_name : Option String → String → DB → Result (Option Role)
  find_by_name tenant name db =
      ask (Option.map map_role) (client.find_first (role_is_named tenant name) db)

  unfoldable pub create : Option String → RoleCreateData → Action DB Role
  create tenant d =
      rethrow (duplicate_handler "Role" "name" d.name)
        (returns map_role (client.create_role (new_role tenant d)))

  -- The role with exactly the given permissions, in one transaction.
  unfoldable pub replace : String → RoleUpdateData → List String → Action DB Role
  replace id d ids = do
    client.update_role id d
    client.delete_links id
    when (not (is_empty ids)) (client.create_links id ids)
    updated ← query (client.find_unique id)
    row ← or_null "id" updated
    pure (map_role row)

  abbrev pub write : String → RoleUpdateData → Option (List String) → Action DB Role
  write id d none = returns map_role (client.update_role id d)
  write id d (some ids) = client.transaction (replace id d ids)

  unfoldable pub update : Option String → String → RoleUpdateData → Action DB Role
  update tenant id d = do
    existing ← query (client.find_first (is_role tenant id))
    throw_if (not (is_some existing)) (entity_not_found_error "Role" id)
    write id d d.permission_ids

  unfoldable pub delete : Option String → String → Action DB (Unit {0})
  delete tenant id = do
    existing ← query (client.find_first (is_role tenant id))
    throw_if (not (is_some existing)) (entity_not_found_error "Role" id)
    returns (λ _. tt) (client.delete_role id)

  abbrev pub role_repository : RoleStore DB
  role_repository = record {
    find_all = λ tenant db.
        ask (map map_role) (client.find_many (λ r. tenant_where tenant r.tenant_id) db);
    find_by_id = find_by_id;
    find_by_name = find_by_name;
    create = create;
    update = update;
    delete = delete;
    create_with_permissions =
        λ tenant d. returns map_role (client.create_role (preset_role tenant d));
    assign_permission = client.create_link;
  }
