-- ===== src/Team/Prisma.antt =====
-- infrastructure/database/prisma/staff.prisma-repository.ts, over a Prisma client that is a
-- parameter, and core/application/booking (assign-staff-service and sync-staff-services).
pub mod Laws
use mathlib.Core.Option
use api_neutra_v.Prelude.{
  Bool, true, not, ◌&&◌, ◌||◌, String, Option, none, some, List, map, str_eq, is_text, is_empty,
  present, or_default, or_else,
}
use api_neutra_v.Errors.{Thrown, validation_error, not_found_handler, duplicate_handler}
use api_neutra_v.Runtime.{
  Result, Action, ◌>>=◌, ◌>>◌, pure, or_throw, when, rethrow, returns, ask, UseCaseResult,
  success_of,
}
use api_neutra_v.Booking.Entity.{Staff}
use api_neutra_v.Team.{StaffDetails, CreateStaffData, UpdateStaffData, StaffRepository}

abbrev pub WorkingHours : Type 0
WorkingHours = List (String × Option (String × String))

-- The value of a JSON column: an object, or anything else.
pub data JsonValue : Type 0 where
  object : WorkingHours → JsonValue
  no_object : JsonValue

pub record StaffRow : Type 0 where
  pub id : String
  pub user_id : Option String
  pub name : String
  pub email : Option String
  pub phone : Option String
  pub avatar : Option String
  pub bio : Option String
  pub active : Bool
  pub working_hours : Option JsonValue
  pub service_ids : List String
  pub tenant_id : String

-- The columns of a new staff member.
pub record StaffColumns : Type 0 where
  pub tenant_id : String
  pub user_id : Option String
  pub name : String
  pub email : Option String
  pub active : Bool
  pub details : StaffDetails

-- A staff member: what the use cases look at, and what they pass on.
pub record StaffMember : Type 0 where
  pub staff : Staff
  pub details : StaffDetails
  pub service_ids : List String

-- The tables of staff and of the services of staff. Lists of staff are ordered by name.
pub record StaffClient (DB : Type 0) : Type 0 where
  pub find_first : (StaffRow → Bool) → DB → Result (Option StaffRow)
  pub find_many : (StaffRow → Bool) → DB → Result (List StaffRow)
  pub create : StaffColumns → Action DB StaffRow
  pub update : String → String → UpdateStaffData → Action DB StaffRow
  pub delete : String → String → Action DB StaffRow
  pub find_links : String → String → DB → Result (List String)
  pub create_link : String → String → String → Action DB (Unit {0})
  pub delete_link : String → String → Action DB (Unit {0})
  pub delete_links : String → String → Action DB (Unit {0})
  pub create_links : String → String → List String → Action DB (Unit {0})
  pub transaction : Action DB (Unit {0}) → Action DB (Unit {0})

abbrev parse_working_hours : Option JsonValue → Option WorkingHours
parse_working_hours none = none
parse_working_hours (some (object hours)) = some hours
parse_working_hours (some no_object) = none

abbrev pub map_to_entity : StaffRow → StaffMember
map_to_entity r = record {
  staff = record {
    id = r.id;
    user_id = r.user_id;
    name = r.name;
    email = r.email;
    active = r.active;
    tenant_id = r.tenant_id;
  };
  details = record {
    phone = r.phone;
    avatar = r.avatar;
    bio = r.bio;
    working_hours = parse_working_hours r.working_hours;
  };
  service_ids = r.service_ids;
}

abbrev pub new_staff : String → CreateStaffData → StaffColumns
new_staff tenant d = record {
  tenant_id = tenant;
  user_id = d.user_id;
  name = d.name;
  email = d.email;
  active = or_default d.active true;
  details = d.details;
}

abbrev pub is_staff : String → String → StaffRow → Bool
is_staff tenant id r = str_eq r.id id && str_eq r.tenant_id tenant

abbrev pub is_user : String → String → StaffRow → Bool
is_user tenant user r = is_text r.user_id user && str_eq r.tenant_id tenant

abbrev has_email : String → String → StaffRow → Bool
has_email tenant email r = is_text r.email email && str_eq r.tenant_id tenant

abbrev listed : Option String → Bool → StaffRow → Bool
listed tenant active_only r =
    (not (present tenant) || str_eq r.tenant_id (or_default tenant ""))
    && (not active_only || r.active)

abbrev pub staff_of : StaffMember → Staff
staff_of m = m.staff

-- P2025, or else P2002.
abbrev update_handler : String → String → Thrown → Thrown
update_handler id value e = duplicate_handler "Staff" "email" value (not_found_handler "Staff" id e)

module _ {DB : Type 0} (client : StaffClient DB) where
  unfoldable pub create : String → CreateStaffData → Action DB StaffMember
  create tenant d =
      rethrow (duplicate_handler "Staff" "email" (or_default d.email d.name))
        (returns map_to_entity (client.create (new_staff tenant d)))

  unfoldable pub find_by_id : String → String → DB → Result (Option StaffMember)
  find_by_id tenant id db =
      ask (Option.map map_to_entity) (client.find_first (is_staff tenant id) db)

  unfoldable pub find_by_email : String → String → DB → Result (Option StaffMember)
  find_by_email tenant email db =
      ask (Option.map map_to_entity) (client.find_first (has_email tenant email) db)

  unfoldable pub find_by_user_id : String → String → DB → Result (Option StaffMember)
  find_by_user_id tenant user db =
      ask (Option.map map_to_entity) (client.find_first (is_user tenant user) db)

  unfoldable pub find_all : Option String → Bool → DB → Result (List StaffMember)
  find_all tenant active_only db =
      ask (map map_to_entity) (client.find_many (listed tenant active_only) db)

  unfoldable pub update : String → String → UpdateStaffData → Action DB StaffMember
  update tenant id d =
      rethrow (update_handler id (or_default d.email ""))
        (returns map_to_entity (client.update id tenant d))

  unfoldable pub delete : String → String → Action DB (Unit {0})
  delete tenant id =
      rethrow (not_found_handler "Staff" id) (returns (λ _. tt) (client.delete id tenant))

  -- The tenant is not asked for.
  abbrev pub remove_service : String → String → String → Action DB (Unit {0})
  remove_service tenant staff service = client.delete_link staff service

  abbrev pub get_services : String → String → DB → Result (List String)
  get_services tenant staff db = client.find_links tenant staff db

  unfoldable pub replace_links : String → String → List String → Action DB (Unit {0})
  replace_links tenant staff ids = do
    client.delete_links tenant staff
    when (not (is_empty ids)) (client.create_links tenant staff ids)

  unfoldable pub sync_services : String → String → List String → Action DB (Unit {0})
  sync_services tenant staff ids = client.transaction (replace_links tenant staff ids)

  -- The methods that the use cases on staff and roles call.
  abbrev pub staff_repository : StaffRepository DB
  staff_repository = record {
    create = λ tenant d. returns staff_of (create tenant d);
    find_by_id = λ tenant id db. ask (Option.map staff_of) (find_by_id tenant id db);
    find_by_user_id = λ tenant user db. ask (Option.map staff_of) (find_by_user_id tenant user db);
    update = λ tenant id d. returns staff_of (update tenant id d);
    delete = delete;
  }

  unfoldable pub assign_staff_service :
      String → String → String → Action DB (UseCaseResult (Unit {0}))
  assign_staff_service tenant staff service = do
    client.create_link tenant staff service
    pure (success_of none "Service assigned to staff successfully")

  -- `none` is a value that is no array.
  unfoldable pub sync_staff_services :
      String → String → Option (List String) → Action DB (UseCaseResult (Unit {0}))
  sync_staff_services tenant staff given = do
    ids ← or_throw given (validation_error "serviceIds must be an array")
    sync_services tenant staff ids
    pure (success_of none "Staff services synchronized successfully")
