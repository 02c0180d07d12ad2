-- ===== src/Tests/Team.antt =====
-- Roles and staff: runs over a store of one staff member and one role, and the theorems at inputs.
use api_neutra_v.Prelude.{true, ◌≡◌, ◌↔◌, refl, String, Option, none, some, or_default, arith}
use api_neutra_v.Prelude.Int.{pos}
use api_neutra_v.Errors.{prisma}
use api_neutra_v.Runtime.{Result, ok, err, success_of}
use api_neutra_v.Booking.Entity.{Staff}
use api_neutra_v.Access.{Role, User, UserRepository, CacheProvider}
use api_neutra_v.Access.Session.{cache_key}
use api_neutra_v.Tests.People.{person}
use api_neutra_v.Team.{
  CreateStaffData, UpdateStaffData, StaffRepository, RoleRepository, no_details, staff_role,
  sync_staff, assign_role, user_of, create_staff,
}
use api_neutra_v.Team.Assigned.{HasStaff, Works, assign_role-Works}
use api_neutra_v.Team.Linked.{HasRoles, create_staff_links}

-- The staff member and the role of the one user.
abbrev Desk : Type 0
Desk = Option Staff × Option String

abbrev hired : CreateStaffData → Staff
hired d = record {
  id = "w1";
  user_id = d.user_id;
  name = d.name;
  email = d.email;
  active = or_default d.active true;
  tenant_id = "t1";
}

abbrev written : UpdateStaffData → Option Staff → Option String → Result Staff × Desk
written d none r = (err (prisma "P2025" none ""), (none, r))
written d (some m) r =
    let new = record m { active = or_default d.active m.active } in (ok new, (some new, r))

abbrev staff : StaffRepository Desk
staff = record {
  create = λ tenant d s. (ok (hired d), (some (hired d), s.1));
  find_by_id = λ tenant id s. ok s.0;
  find_by_user_id = λ tenant id s. ok s.0;
  update = λ tenant id d s. written d s.0 s.1;
  delete = λ tenant id s. (ok tt, (none, s.1));
}

abbrev role_named : String → Role
role_named name = record {
  id = "r2";
  name = name;
  description = none;
  level = pos 1;
  active = true;
  permissions = none;
}

abbrev roles : String → RoleRepository Desk
roles name = record {
  find_by_id = λ tenant id s. ok (some (role_named name));
  find_by_name = λ tenant n s. ok (some (role_named n));
}

abbrev bob : User
bob = person "u2" "Bob" "bob@shop"

abbrev users : UserRepository Desk
users = record {
  find_by_email = λ email s. ok (some bob);
  find_by_id = λ id s. ok (some bob);
  add_tenant = λ user tenant role s. (ok tt, (s.0, some role));
}

abbrev no_cache : CacheProvider Desk
no_cache = record {
  get = λ key s. ok none;
  set = λ key v ttl s. (ok tt, s);
  del = λ key s. (ok tt, s);
}

abbrev member : String → Desk → Option Staff
member id s = s.0

written-active :
    (d : UpdateStaffData) (s s' : Desk) (old m : Staff)
    → s.0 ≡ some old
    → written d s.0 s.1 ≡ (ok m, s')
    → (s'.0 ≡ some m) × (m.active ≡ or_default d.active old.active)
written-active d (none, r) s' old m there h = absurd (ground (arith, there))
written-active d (some n, r) s' old m there h = (ground (arith, there, h), ground (arith, there, h))

desk-HasStaff : HasStaff staff "t1" member
desk-HasStaff = record {
  find_lem = λ id s. refl;
  create_lem = λ d id s s' m missing mine made. (ground (arith, made), ground (arith, made));
  update_lem = λ id d s s' old m there bare made. written-active d s s' old m there made;
}

abbrev bob_works : Desk
bob_works = (
  some (record {
    id = "w1";
    user_id = some "u2";
    name = "Bob";
    email = some "bob@shop";
    active = true;
    tenant_id = "t1";
  }),
  some "r2",
)

assigned :
    assign_role users (roles "STAFF") staff no_cache (some "t1") "u2" "r2" (none, some "r9")
    ≡ (ok (success_of (some bob) "Role assigned successfully"), bob_works)
unfolding assign_role sync_staff
assigned = refl

assign_role-Works_example :
    (u : User) × (◌≡◌ {A = Result (Option User)} (ok (some bob)) (ok (some u)))
    × (role : Role) × (◌≡◌ {A = Result (Option Role)}
        (ok (some (role_named "STAFF")))
        (ok (some role)))
    × (Works (member "u2" bob_works) ↔ (role.name ≡ staff_role))
    × (no_cache.get (cache_key "u2" "t1") bob_works ≡ ok none)
assign_role-Works_example =
    assign_role-Works users (roles "STAFF") staff "t1" member desk-HasStaff no_cache
      (λ key k s. refl) (λ key s. refl) "u2" "r2" (none, some "r9") bob_works
      (success_of (some bob) "Role assigned successfully") refl assigned

abbrev role_of : String → Desk → Option String
role_of id s = s.1

desk-HasRoles : HasRoles users staff "t1" role_of
desk-HasRoles = record {
  add_lem = λ user role s s' added. ground (arith, added);
  create_lem = λ d user s. refl;
}

abbrev new_member : CreateStaffData
new_member = record {
  user_id = none;
  name = "Bob";
  email = some "bob@shop";
  active = none;
  details = no_details;
}

abbrev bob_hired : Staff
bob_hired = hired (record new_member { user_id = some "u2" })

-- The user was the owner of the shop, with the role r9.
linked : create_staff users (roles "OWNER") staff "t1" new_member (none, some "r9") ≡ (
  ok (success_of (some bob_hired) "Staff member created successfully"),
  (some bob_hired, some "r2"),
)
unfolding create_staff user_of
linked = refl

create_staff_links_example :
    (role_of "u2" (some bob_hired, some "r2") ≡ some "r2")
    × (m : Staff) × (◌≡◌ {A = Option Staff} (some bob_hired) (some m))
    × (s₁ : Desk) × ((staff.create "t1" (record new_member { user_id = some "u2" }) s₁).0 ≡ ok m)
create_staff_links_example =
    create_staff_links users (roles "OWNER") staff "t1" role_of desk-HasRoles new_member "bob@shop"
      (none, some "r9") (some bob_hired, some "r2") bob (role_named "STAFF")
      (success_of (some bob_hired) "Staff member created successfully") refl refl refl refl refl
      refl linked
