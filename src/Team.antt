-- ===== src/Team.antt =====
-- Roles and staff of users: core/application/users/assign-role and core/application/booking
-- (create-staff, update-staff and delete-staff).
pub mod Assigned
pub mod Linked
pub mod Prisma
use api_neutra_v.Prelude.{
  Bool, true, false, not, String, Option, none, some, List, str_eq, [], or_else, is_text, truthy,
  present, if◌then◌else◌,
}
use api_neutra_v.Errors.{entity_not_found_error, validation_error, validation_as}
use api_neutra_v.Runtime.{
  Result, ok, Action, ◌>>=◌, ◌>>◌, pure, query, throw_if, or_throw, when, UseCaseResult, success_of,
}
use api_neutra_v.Booking.Entity.{Staff}
use api_neutra_v.Access.{Role, User, UserRepository, CacheProvider}
use api_neutra_v.Access.Session.{cache_key, first_text}

-- What the use cases copy and do not look at.
pub record StaffDetails : Type 0 where
  pub phone : Option String
  pub avatar : Option String
  pub bio : Option String
  pub working_hours : Option (List (String × Option (String × String)))

pub record CreateStaffData : Type 0 where
  pub user_id : Option String
  pub name : String
  pub email : Option String
  pub active : Option Bool
  pub details : StaffDetails

pub record UpdateStaffData : Type 0 where
  pub user_id : Option String
  pub name : Option String
  pub email : Option String
  pub active : Option Bool
  pub details : StaffDetails

pub record StaffRepository (S : Type 0) : Type 0 where
  pub create : String → CreateStaffData → Action S Staff
  pub find_by_id : String → String → S → Result (Option Staff)
  pub find_by_user_id : String → String → S → Result (Option Staff)
  pub update : String → String → UpdateStaffData → Action S Staff
  pub delete : String → String → Action S (Unit {0})

pub record RoleRepository (S : Type 0) : Type 0 where
  pub find_by_id : String → String → S → Result (Option Role)
  pub find_by_name : String → String → S → Result (Option Role)

abbrev pub staff_role : String
staff_role = "STAFF"

abbrev pub no_details : StaffDetails
no_details = record { phone = none; avatar = none; bio = none; working_hours = none }

abbrev pub only_active : Bool → UpdateStaffData
only_active b = record {
  user_id = none;
  name = none;
  email = none;
  active = some b;
  details = no_details;
}

abbrev pub staff_of_user : String → User → CreateStaffData
staff_of_user id u = record {
  user_id = some id;
  name = u.name;
  email = some u.email;
  active = some true;
  details = record no_details { working_hours = some [] };
}

-- `if (!x)` on an optional text, and the text otherwise.
abbrev pub named : Option String → Option String
named none = none
named (some t) = if truthy t then some t else none

module _ {S : Type 0} (users : UserRepository S) (roles : RoleRepository S)
    (staff : StaffRepository S) where
  abbrev pub return_tt : {A : Type 0} → Action S A → Action S (Unit {0})
  return_tt m = m >> pure tt

  -- A user whose role is STAFF has an active staff member, and any other user an inactive one, if
  -- any.
  abbrev pub activate : String → String → User → Option Staff → Action S (Unit {0})
  activate tenant id u none = return_tt (staff.create tenant (staff_of_user id u))
  activate tenant id u (some m) =
      when (not m.active) (return_tt (staff.update tenant m.id (only_active true)))

  abbrev pub deactivate : String → Option Staff → Action S (Unit {0})
  deactivate tenant none = pure tt
  deactivate tenant (some m) =
      when m.active (return_tt (staff.update tenant m.id (only_active false)))

  unfoldable pub sync_staff : String → String → User → Role → Action S (Unit {0})
  sync_staff tenant id u role = do
    existing ← query (staff.find_by_user_id tenant id)
    if str_eq role.name staff_role
        then activate tenant id u existing
        else deactivate tenant existing

  unfoldable pub assign_role :
      CacheProvider S → Option String → String → String → Action S (UseCaseResult User)
  assign_role cache requested user_id role_id = do
    tenant ←
        or_throw (named requested)
          (validation_as "TenantId is required for role assignment" "MISSING_REQUIRED_FIELDS")
    found ← query (users.find_by_id user_id)
    user ← or_throw found (entity_not_found_error "User" user_id)
    known ← query (roles.find_by_id tenant role_id)
    role ← or_throw known (entity_not_found_error "Role" role_id)
    users.add_tenant user_id tenant role_id
    sync_staff tenant user_id user role
    updated ← query (users.find_by_id user_id)
    cache.del (cache_key user_id tenant)
    pure (success_of updated "Role assigned successfully")

  abbrev pub id_of : Option User → Option String
  id_of none = none
  id_of (some u) = some u.id

  abbrev by_email : Option String → Option String → Action S (Option String)
  by_email given none s = (ok given, s)
  by_email given (some email) s = elim (truthy email) [
    | true ↦ (do found ← query (users.find_by_email email); pure (or_else (id_of found) given)) s
    | false ↦ (ok given, s)
  ]

  -- The user of a staff member: the given one, or else one with the e-mail.
  unfoldable pub user_of : Option String → Option String → Action S (Option String)
  user_of given email s = elim (present given) [
    | true ↦ (ok given, s)
    | false ↦ by_email given email s
  ]

  abbrev pub give_role : String → String → Option Role → Action S (Unit {0})
  give_role tenant user none = pure tt
  give_role tenant user (some role) = users.add_tenant user tenant role.id

  -- The user gets the tenant's role STAFF, in place of the role that they had there.
  abbrev pub link : String → Option String → Action S (Unit {0})
  link tenant none = pure tt
  link tenant (some user) =
      when (truthy user)
        (do role ← query (roles.find_by_name tenant staff_role); give_role tenant user role)

  unfoldable pub create_staff : String → CreateStaffData → Action S (UseCaseResult Staff)
  create_staff tenant d = do
    throw_if (not (truthy d.name)) (validation_error "Name is required")
    user ← user_of d.user_id d.email
    link tenant user
    member ← staff.create tenant (record d { user_id = user })
    pure (success_of (some member) "Staff member created successfully")

  unfoldable pub update_staff : String → String → UpdateStaffData → Action S (UseCaseResult Staff)
  update_staff tenant id d = do
    throw_if (is_text d.name "") (validation_error "Name cannot be empty")
    found ← query (staff.find_by_id tenant id)
    existing ← or_throw found (entity_not_found_error "Staff" id)
    user ← user_of (first_text d.user_id existing.user_id) (first_text d.email existing.email)
    link tenant user
    member ← staff.update tenant id (record d { user_id = user })
    pure (success_of (some member) "Staff member updated successfully")

  unfoldable pub delete_staff : String → String → Action S (UseCaseResult (Unit {0}))
  delete_staff tenant id = do
    found ← query (staff.find_by_id tenant id)
    or_throw found (entity_not_found_error "Staff" id)
    staff.delete tenant id
    pure (success_of none "Staff member deleted successfully")
