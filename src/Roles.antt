-- ===== src/Roles.antt =====
-- Roles and permissions: core/application/roles, core/application/permissions, and the interfaces of
-- their repositories.
pub mod Prisma
pub mod Changed
use api_neutra_v.Prelude.{
  ℕ, Bool, true, false, not, ◌&&◌, ◌||◌, String, Option, none, some, List, [], ◌∷◌, str_eq, is_some,
  is_empty, truthy, present, or_default, if◌then◌else◌,
}
use api_neutra_v.Prelude.Int.{ℤ}
use api_neutra_v.Errors.{
  DomainError, duplicate_entity_error, entity_not_found_error, forbidden_error,
}
use api_neutra_v.Runtime.{
  Result, Action, ◌>>=◌, ◌>>◌, pure, query, throw_if, or_throw, when, UseCaseResult, success_of,
}
use api_neutra_v.Access.{Role, Permission, User, CacheProvider}
use api_neutra_v.Access.Session.{cache_key}
use api_neutra_v.Account.{AccountRepository}
use api_neutra_v.Team.{RoleRepository, named}

-- The requests have the same fields as the data of the repository.
pub record RoleCreateData : Type 0 where
  pub name : String
  pub description : Option String
  pub level : Option ℤ
  pub active : Option Bool
  pub permission_ids : Option (List String)

pub record RoleUpdateData : Type 0 where
  pub name : Option String
  pub description : Option String
  pub level : Option ℤ
  pub active : Option Bool
  pub permission_ids : Option (List String)

-- The role with its permissions of a new tenant.
pub record RolePreset : Type 0 where
  pub name : String
  pub level : ℤ
  pub description : String
  pub permission_ids : List String

-- `IRoleRepository`; the pages are left out.
pub record RoleStore (S : Type 0) : Type 0 where
  pub find_all : Option String → S → Result (List Role)
  pub find_by_id : Option String → String → S → Result (Option Role)
  pub find_by_name : Option String → String → S → Result (Option Role)
  pub create : Option String → RoleCreateData → Action S Role
  pub update : Option String → String → RoleUpdateData → Action S Role
  pub delete : Option String → String → Action S (Unit {0})
  pub create_with_permissions : String → RolePreset → Action S Role
  pub assign_permission : String → String → Action S (Unit {0})

pub record PermissionCreateData : Type 0 where
  pub name : String
  pub description : Option String
  pub active : Option Bool

pub record PermissionUpdateData : Type 0 where
  pub name : Option String
  pub description : Option String
  pub active : Option Bool

-- `IPermissionRepository`; the pages are left out.
pub record PermissionStore (S : Type 0) : Type 0 where
  pub find_all : Option String → S → Result (List Permission)
  pub find_by_id : Option String → String → S → Result (Option Permission)
  pub find_by_name : Option String → String → S → Result (Option Permission)
  pub create : Option String → PermissionCreateData → Action S Permission
  pub update : Option String → String → PermissionUpdateData → Action S Permission
  pub delete : Option String → String → Action S (Unit {0})
  pub upsert_by_name : String → String → String → Action S Permission

-- The repository as the use cases on staff call it.
abbrev pub team_roles : {S : Type 0} → RoleStore S → RoleRepository S
team_roles roles = record {
  find_by_id = λ tenant. roles.find_by_id (some tenant);
  find_by_name = λ tenant. roles.find_by_name (some tenant);
}

abbrev other_role : String → Option Role → Bool
other_role id none = false
other_role id (some r) = not (str_eq r.id id)

abbrev other_permission : String → Option Permission → Bool
other_permission id none = false
other_permission id (some p) = not (str_eq p.id id)

abbrev pub is_system_role : String → Bool
is_system_role name = str_eq name "ADMIN" || str_eq name "USER"

module _ {S : Type 0} (roles : RoleStore S) where
  unfoldable pub create_role : Option String → RoleCreateData → Action S (UseCaseResult Role)
  create_role tenant d = do
    existing ← query (roles.find_by_name tenant d.name)
    throw_if (is_some existing) (duplicate_entity_error "Role" "name" d.name)
    role ← roles.create tenant d
    pure (success_of (some role) "Role created successfully")

  unfoldable pub delete_role : Option String → String → Action S (UseCaseResult (Unit {0}))
  delete_role tenant id = do
    existing ← query (roles.find_by_id tenant id)
    role ← or_throw existing (entity_not_found_error "Role" id)
    throw_if (is_system_role role.name) (forbidden_error "Cannot delete system roles")
    roles.delete tenant id
    pure (success_of none "Role deleted successfully")

  abbrev get_roles : Option String → Action S (UseCaseResult (List Role))
  get_roles tenant = do
    found ← query (roles.find_all tenant)
    pure (success_of (some found) "Roles retrieved successfully")

  abbrev get_role_by_id : Option String → String → Action S (UseCaseResult Role)
  get_role_by_id tenant id = do
    found ← query (roles.find_by_id tenant id)
    role ← or_throw found (entity_not_found_error "Role" id)
    pure (success_of (some role) "Role retrieved successfully")

  -- `if (name) { … }`: no other role of the tenant has the new name.
  abbrev check_name : Option String → String → Option String → Action S (Unit {0})
  check_name tenant id none = pure tt
  check_name tenant id (some name) = do
    same ← query (roles.find_by_name tenant name)
    throw_if (other_role id same) (duplicate_entity_error "Role" "name" name)

  -- The cached permissions of each user with the role.
  unfoldable pub forget : CacheProvider S → String → List User → Action S (Unit {0})
  forget cache tenant [] s = pure tt s
  forget cache tenant (u ∷ us) s =
      (cache.del (cache_key u.id tenant) >>= λ _. forget cache tenant us) s

  abbrev pub forget_role :
      AccountRepository S → CacheProvider S → Option String → String → Action S (Unit {0})
  forget_role users cache none id = pure tt
  forget_role users cache (some tenant) id = do
    holders ← query (users.find_by_role_id tenant id)
    forget cache tenant holders

  unfoldable pub update_role :
      AccountRepository S
      → CacheProvider S
      → Option String
      → String
      → RoleUpdateData
      → Action S (UseCaseResult Role)
  update_role users cache tenant id d = do
    existing ← query (roles.find_by_id tenant id)
    or_throw existing (entity_not_found_error "Role" id)
    check_name tenant id (named d.name)
    updated ← roles.update tenant id d
    forget_role users cache (named tenant) id
    pure (success_of (some updated) "Role updated successfully")

module _ {S : Type 0} (permissions : PermissionStore S) where
  unfoldable pub create_permission :
      Option String → PermissionCreateData → Action S (UseCaseResult Permission)
  create_permission tenant d = do
    existing ← query (permissions.find_by_name tenant d.name)
    throw_if (is_some existing) (duplicate_entity_error "Permission" "name" d.name)
    permission ← permissions.create tenant d
    pure (success_of (some permission) "Permission created successfully")

  unfoldable pub delete_permission : Option String → String → Action S (UseCaseResult (Unit {0}))
  delete_permission tenant id = do
    existing ← query (permissions.find_by_id tenant id)
    or_throw existing (entity_not_found_error "Permission" id)
    permissions.delete tenant id
    pure (success_of none "Permission deleted successfully")

  abbrev get_permissions : Option String → Action S (UseCaseResult (List Permission))
  get_permissions tenant = do
    found ← query (permissions.find_all tenant)
    pure (success_of (some found) "Permissions retrieved successfully")

  abbrev get_permission_by_id : Option String → String → Action S (UseCaseResult Permission)
  get_permission_by_id tenant id = do
    found ← query (permissions.find_by_id tenant id)
    permission ← or_throw found (entity_not_found_error "Permission" id)
    pure (success_of (some permission) "Permission retrieved successfully")

  abbrev check_permission_name : Option String → String → Option String → Action S (Unit {0})
  check_permission_name tenant id none = pure tt
  check_permission_name tenant id (some name) = do
    same ← query (permissions.find_by_name tenant name)
    throw_if (other_permission id same) (duplicate_entity_error "Permission" "name" name)

  unfoldable pub update_permission :
      Option String → String → PermissionUpdateData → Action S (UseCaseResult Permission)
  update_permission tenant id d = do
    existing ← query (permissions.find_by_id tenant id)
    or_throw existing (entity_not_found_error "Permission" id)
    check_permission_name tenant id (named d.name)
    updated ← permissions.update tenant id d
    pure (success_of (some updated) "Permission updated successfully")
