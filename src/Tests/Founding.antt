-- ===== src/Tests/Founding.antt =====
-- The creation of a tenant over a store in memory: a run, and the theorem at it.
use api_neutra_v.Prelude.{
  ◌≡◌, refl, inl, inr, sym, ◌∙◌, ap, Bool, true, false, ◌&&◌, ◌||◌, String, Option, none, some,
  List, [], str_eq, str_eq_iff, Bool-cases, arith, if◌then◌else◌,
}
use api_neutra_v.Errors.{prisma}
use api_neutra_v.Runtime.{ok, err, ok-injective, Action, success_of}
use api_neutra_v.Access.{Permission, Role}
use api_neutra_v.Account.{AccountRepository}
use api_neutra_v.Roles.{RolePreset, RoleStore, PermissionStore}
use api_neutra_v.Tenant.{Tenant, TenantRepository, store}
use api_neutra_v.Tenant.Create.{CreateTenantDto, create_tenant, upsert_all, create_roles}
use api_neutra_v.Tenant.Foundation.{IsFoundation}
use api_neutra_v.Tenant.Founded.{IsFounded, create_tenant-IsFounded}
use api_neutra_v.Tests.People.{no_accounts, no_roles, no_tenants, shop}

abbrev Given : Type 0
Given = String × List String

-- The role of the one user, the roles of the tenants, and the names of permissions, which are their
-- ids.
record Office : Type 0 where
  post : Option String
  roles : String → String → Option Given
  known : String → Bool

abbrev tenants : TenantRepository Office
tenants = record no_tenants { create = λ d s. (ok shop, s) }

abbrev users : AccountRepository Office
users = record no_accounts {
  add_tenant = λ user tenant role s. (ok tt, record s { post = some role });
}

abbrev permission : String → Permission
permission name = record { id = name; name = name; description = none; active = true }

abbrev permissions : PermissionStore Office
permissions = record {
  find_all = λ tenant s. ok [];
  find_by_id = λ tenant id s. ok none;
  find_by_name = λ tenant name s. ok none;
  create = λ tenant d s. (ok (permission d.name), s);
  update = λ tenant id d s. (ok (permission id), s);
  delete = λ tenant id s. (ok tt, s);
  upsert_by_name = λ tenant name description s.
      (ok (permission name), record s { known = λ k. str_eq k name || s.known k });
}

abbrev role_named : RolePreset → Role
role_named d = record {
  id = d.name;
  name = d.name;
  description = none;
  level = d.level;
  active = true;
  permissions = none;
}

abbrev with_role : String → RolePreset → Office → Office
with_role tenant d s = record s {
  roles = λ t k.
      let old = s.roles t k in
      if str_eq t tenant && str_eq k d.name then some (d.name, d.permission_ids) else old;
}

-- A role's name is unique in its tenant.
abbrev add_role : String → RolePreset → Option Given → Action Office Role
add_role tenant d (some x) s = (err (prisma "P2002" none "unique constraint failed"), s)
add_role tenant d none s = (ok (role_named d), with_role tenant d s)

abbrev roles : RoleStore Office
roles = record no_roles {
  create_with_permissions = λ tenant d s. add_role tenant d (s.roles tenant d.name) s;
}

abbrev role_of : String → String → Office → Option String
role_of user tenant s = s.post

abbrev role_at : String → String → Office → Option Given
role_at tenant id s = s.roles tenant id

abbrev name_of : String → Office → Option String
name_of id s = if s.known id then some id else none

str_eq_refl : (s : String) → str_eq s s ≡ true
str_eq_refl s = (str_eq_iff s s).1 refl

still :
    (s : Office) (name k n : String)
    → name_of k s ≡ some n
    → name_of k (record s { known = λ j. str_eq j name || s.known j }) ≡ some n
still s name k n was = elim (Bool-cases (s.known k)) [
  | inr e ↦ absurd (ground (arith, e, was))
  | inl e ↦ elim (Bool-cases (str_eq k name)) [
    | inl f ↦ rw f (ground (arith, e, was))
    | inr f ↦ rw f was
  ]
]

upserted :
    (tenant name description : String) (s s' : Office) (p : Permission)
    → permissions.upsert_by_name tenant name description s ≡ (ok p, s')
    → (p.name ≡ name)
      × (name_of p.id s' ≡ some name)
      × ((k n : String) → name_of k s ≡ some n → name_of k s' ≡ some n)
upserted tenant name description s s' p h =
    let made : permission name ≡ p = ok-injective (ap (λ x. x.0) h) in
    let last : record s { known = λ k. str_eq k name || s.known k } ≡ s' = ap (λ x. x.1) h in
    (
      ap (λ (x : Permission). x.name) (sym made),
      ap (λ (x : Permission). name_of x.id s') (sym made)
          ∙ ap (name_of name) (sym last)
          ∙ rw (str_eq_refl name) refl,
      λ k n was. ap (name_of k) (sym last) ∙ still s name k n was,
    )

role_stays :
    (tenant : String) (d : RolePreset) (s : Office) (t k : String) (x : Given)
    → s.roles tenant d.name ≡ none
    → role_at t k s ≡ some x
    → role_at t k (with_role tenant d s) ≡ some x
role_stays tenant d s t k x free was = elim (Bool-cases (str_eq t tenant && str_eq k d.name)) [
  | inr e ↦ rw e was
  | inl e ↦
      let t_is : t ≡ tenant = (str_eq_iff t tenant).0 (ground (arith, e)) in
      let k_is : k ≡ d.name = (str_eq_iff k d.name).0 (ground (arith, e)) in
      let here : s.roles tenant d.name ≡ some x =
        ap (λ z. s.roles z d.name) (sym t_is) ∙ ap (s.roles t) (sym k_is) ∙ was in
      absurd (ground (arith, free, here))
]

added_role :
    (tenant : String) (d : RolePreset) (s s' : Office) (r : Role) (o : Option Given)
    → s.roles tenant d.name ≡ o
    → add_role tenant d o s ≡ (ok r, s')
    → (role_at tenant r.id s' ≡ some (d.name, d.permission_ids))
      × ((t k : String) (x : Given) → role_at t k s ≡ some x → role_at t k s' ≡ some x)
      × ((k : String) → name_of k s' ≡ name_of k s)
added_role tenant d s s' r (some x) free h = absurd (ground (arith, h))
added_role tenant d s s' r none free h =
    let made : role_named d ≡ r = ok-injective (ap (λ x. x.0) h) in
    let last : with_role tenant d s ≡ s' = ap (λ x. x.1) h in
    (
      ap (λ (x : Role). role_at tenant x.id s') (sym made)
          ∙ ap (role_at tenant d.name) (sym last)
          ∙ rw (str_eq_refl tenant, str_eq_refl d.name) refl,
      λ t k x was. ap (role_at t k) (sym last) ∙ role_stays tenant d s t k x free was,
      λ k. ap (name_of k) (sym last),
    )

foundation : IsFoundation users roles permissions role_of role_at name_of
foundation = record {
  upsert_lem = upserted;
  create_lem = λ tenant d s s' r h. added_role tenant d s s' r (s.roles tenant d.name) refl h;
  add_lem = λ user tenant role s s' h. (
    ap (λ x. x.1.post) (sym h),
    λ t k. ap (λ x. x.1.roles t k) (sym h),
    λ k. ap (λ x. name_of k x.1) (sym h),
  );
}

abbrev new_shop : CreateTenantDto
new_shop = record { name = "Shop"; slug = "shop"; type = store; config = none }

abbrev empty : Office
empty = record { post = none; roles = λ t k. none; known = λ k. false }

-- The office after the creation.
abbrev opened : Office
opened = (create_tenant tenants users roles permissions new_shop "u1" empty).1

created :
    create_tenant tenants users roles permissions new_shop "u1" empty
    ≡ (ok (success_of (some shop) "Tenant created successfully"), opened)
unfolding create_tenant upsert_all create_roles
created = refl

create_tenant-IsFounded_example :
    (t : Tenant) × (◌≡◌ {A = Option Tenant} (some shop) (some t))
    × IsFounded tenants users roles permissions role_of role_at name_of foundation new_shop "u1"
        empty opened t
create_tenant-IsFounded_example =
    create_tenant-IsFounded tenants users roles permissions role_of role_at name_of foundation
      new_shop "u1" empty opened (success_of (some shop) "Tenant created successfully") created
