-- ===== src/Team/Linked.antt =====
-- The link of a new staff member to a user: core/application/booking/create-staff.use-case.ts.
use api_neutra_v.Prelude.{
  true, false, ◌≡◌, ◌∙◌, ap, sym, inl, inr, Option, some, String, truthy, present, arith,
}
use api_neutra_v.Runtime.{ok, UseCaseResult, outcome}
use api_neutra_v.Booking.Entity.{Staff}
use api_neutra_v.Access.{Role, User, UserRepository}
use api_neutra_v.Team.{
  CreateStaffData, StaffRepository, RoleRepository, staff_role, user_of, create_staff,
}

-- `role_of` reads the role of a user in the tenant off the store.
pub record HasRoles {S : Type 0} (users : UserRepository S) (staff : StaffRepository S)
    (tenant : String) (role_of : String → S → Option String) : Type 0 where
  pub add_lem :
      (user role : String) (s s' : S)
      → users.add_tenant user tenant role s ≡ (ok tt, s')
      → role_of user s' ≡ some role
  pub create_lem :
      (d : CreateStaffData) (user : String) (s : S)
      → role_of user (staff.create tenant d s).1 ≡ role_of user s

module _ {S : Type 0} (users : UserRepository S) (roles : RoleRepository S)
    (staff : StaffRepository S) (tenant : String) (role_of : String → S → Option String)
    (has : HasRoles users staff tenant role_of) where
  -- A staff member created with the e-mail of a user, and without a user, belongs to that user, and
  -- the user's role in the tenant is STAFF afterwards, whatever it was, where the tenant has a role of
  -- that name.
  pub create_staff_links :
      (d : CreateStaffData) (email : String) (s s' : S) (u : User) (role : Role)
      (r : UseCaseResult Staff)
      → present d.user_id ≡ false
      → d.email ≡ some email
      → truthy email ≡ true
      → users.find_by_email email s ≡ ok (some u)
      → truthy u.id ≡ true
      → roles.find_by_name tenant staff_role s ≡ ok (some role)
      → create_staff users roles staff tenant d s ≡ (ok r, s')
      → (role_of u.id s' ≡ some role.id)
        × (m : Staff) × (r.value ≡ some m)
        × (s₁ : S) × ((staff.create tenant (record d { user_id = some u.id }) s₁).0 ≡ ok m)
  unfolding create_staff user_of
  create_staff_links d email s s' u role r alone mailed written found real known h =
      elim (outcome (users.add_tenant u.id tenant role.id s)) [
        | inr (e, s₁, failed) ↦
            absurd (ground (arith, alone, mailed, written, found, real, known, failed, h))
        | inl (v, s₁, added) ↦
            elim (outcome (staff.create tenant (record d { user_id = some u.id }) s₁)) [
              | inr (e, s₂, failed) ↦
                  absurd
                    (ground (arith, alone, mailed, written, found, real, known, added, failed, h))
              | inl (m, s₂, made) ↦
                  let same : s' ≡ s₂ =
                    ground (arith, alone, mailed, written, found, real, known, added, made, h) in
                  (
                    ap (role_of u.id) same
                        ∙ ap (λ x. role_of u.id x.1) (sym made)
                        ∙ has.create_lem (record d { user_id = some u.id }) u.id s₁
                        ∙ has.add_lem u.id role.id s s₁ added,
                    m,
                    ground (arith, alone, mailed, written, found, real, known, added, made, h),
                    s₁,
                    ap (λ x. x.0) made,
                  )
            ]
      ]
