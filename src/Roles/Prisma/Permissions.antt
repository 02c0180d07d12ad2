-- ===== src/Roles/Prisma/Permissions.antt =====
-- infrastructure/database/prisma/permission.prisma-repository.ts
use mathlib.Core.Option
use api_neutra_v.Prelude.{
  Bool, true, not, ◌&&◌, String, Option, none, some, List, map, is_some, str_eq, or_default,
  if◌then◌else◌,
}
use api_neutra_v.Errors.{entity_not_found_error, duplicate_handler}
use api_neutra_v.Runtime.{Result, Action, ◌>>=◌, ◌>>◌, pure, query, throw_if, rethrow, returns, ask}
use api_neutra_v.Access.{Permission}
use api_neutra_v.Team.{named}
use api_neutra_v.Roles.{PermissionCreateData, PermissionUpdateData, PermissionStore}
use api_neutra_v.Roles.Prisma.{PermissionRow, map_permission, tenant_where}

pub record PermissionClient (DB : Type 0) : Type 0 where
  pub find_many : (PermissionRow → Bool) → DB → Result (List PermissionRow)
  pub find_first : (PermissionRow → Bool) → DB → Result (Option PermissionRow)
  pub find_id : String → DB → Result (Option PermissionRow)
  pub find_name : String → DB → Result (Option PermissionRow)
  pub create_permission : Option String → PermissionCreateData → Action DB PermissionRow
  pub update_permission : String → PermissionUpdateData → Action DB PermissionRow
  pub delete_permission : String → Action DB PermissionRow

module _ {DB : Type 0} (client : PermissionClient DB) where
  abbrev own : Option String → Option PermissionRow → Option PermissionRow
  own tenant none = none
  own tenant (some p) = if tenant_where tenant p.tenant_id then some p else none

  unfoldable pub find_permission : Option String → String → DB → Result (Option Permission)
  find_permission tenant id db =
      ask (λ o. Option.map map_permission (own tenant o)) (client.find_id id db)

  unfoldable pub find_permission_by_name : Option String → String → DB → Result (Option Permission)
  find_permission_by_name tenant name db =
      ask (Option.map map_permission)
        (client.find_first (λ p. str_eq p.name name && tenant_where tenant p.tenant_id) db)

  unfoldable pub create_permission : Option String → PermissionCreateData → Action DB Permission
  create_permission tenant d = rethrow (duplicate_handler "Permission" "name" d.name) (
      returns map_permission (
        client.create_permission (named tenant)
          (record d { active = some (or_default d.active true) })))

  unfoldable pub update_permission :
      Option String → String → PermissionUpdateData → Action DB Permission
  update_permission tenant id d = do
    existing ← query (find_permission tenant id)
    throw_if (not (is_some existing)) (entity_not_found_error "Permission" id)
    rethrow (duplicate_handler "Permission" "name" (or_default d.name ""))
        (returns map_permission (client.update_permission id d))

  unfoldable pub delete_permission : Option String → String → Action DB (Unit {0})
  delete_permission tenant id = do
    existing ← query (find_permission tenant id)
    throw_if (not (is_some existing)) (entity_not_found_error "Permission" id)
    returns (λ _. tt) (client.delete_permission id)

  abbrev insert_permission : String → String → String → Option PermissionRow → Action DB Permission
  insert_permission tenant name description (some p) = pure (map_permission p)
  insert_permission tenant name description none = returns map_permission (
      client.create_permission (some tenant)
        (record { name = name; description = some description; active = some true }))

  -- A permission of this name, of whichever tenant.
  unfoldable pub upsert_by_name : String → String → String → Action DB Permission
  upsert_by_name tenant name description = do
    existing ← query (client.find_name name)
    insert_permission tenant name description existing

  abbrev pub permission_repository : PermissionStore DB
  permission_repository = record {
    find_all = λ tenant db.
        ask (map map_permission) (client.find_many (λ p. tenant_where tenant p.tenant_id) db);
    find_by_id = find_permission;
    find_by_name = find_permission_by_name;
    create = create_permission;
    update = update_permission;
    delete = delete_permission;
    upsert_by_name = upsert_by_name;
  }
