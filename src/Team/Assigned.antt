-- ===== src/Team/Assigned.antt =====
-- What assigning a role does to the staff: core/application/users/assign-role.use-case.ts.
use api_neutra_v.Prelude.{
  true, false, ◌≡◌, ◌↔◌, inl, inr, refl, ap, sym, ◌∙◌, subst, String, Option, none, some,
  or_default, str_eq, str_eq_iff, truthy, Bool-cases, arith,
}
use api_neutra_v.Runtime.{ok, UseCaseResult, answer, outcome}
use api_neutra_v.Booking.Entity.{Staff}
use api_neutra_v.Access.{Role, User, UserRepository, CacheProvider}
use api_neutra_v.Access.Session.{cache_key}
use api_neutra_v.Team.{
  CreateStaffData, UpdateStaffData, StaffRepository, RoleRepository, staff_role, only_active,
  staff_of_user, activate, deactivate, sync_staff, assign_role,
}

-- `member` is the staff member that the lookup by user answers, read off the store. A user may have
-- several in a tenant; the lookup answers one.
pub record HasStaff {S : Type 0} (staff : StaffRepository S) (tenant : String)
    (member : String → S → Option Staff) : Type 0 where
  pub find_lem : (id : String) (s : S) → staff.find_by_user_id tenant id s ≡ ok (member id s)
  pub create_lem :
      (d : CreateStaffData) (id : String) (s s' : S) (m : Staff)
      → member id s ≡ none
      → d.user_id ≡ some id
      → staff.create tenant d s ≡ (ok m, s')
      → (member id s' ≡ some m) × (m.active ≡ or_default d.active true)
  pub update_lem :
      (id : String) (d : UpdateStaffData) (s s' : S) (old m : Staff)
      → member id s ≡ some old
      → d.user_id ≡ none
      → staff.update tenant old.id d s ≡ (ok m, s')
      → (member id s' ≡ some m) × (m.active ≡ or_default d.active old.active)

-- There is a staff member, who is active.
abbrev pub Works : Option Staff → Type 0
Works none = ⊥
Works (some m) = m.active ≡ true

module _ {S : Type 0} (users : UserRepository S) (roles : RoleRepository S)
    (staff : StaffRepository S) (tenant : String) (member : String → S → Option Staff)
    (has : HasStaff staff tenant member) where
  activate-Works :
      (id : String) (u : User) (s s' : S) (o : Option Staff)
      → member id s ≡ o
      → activate users roles staff tenant id u o s ≡ (ok tt, s')
      → Works (member id s')
  activate-Works id u s s' none there h =
      elim (outcome (staff.create tenant (staff_of_user id u) s)) [
        | inr (e, s₁, failed) ↦ absurd (ground (arith, failed, h))
        | inl (m, s₁, made) ↦
            let (is, active) = has.create_lem (staff_of_user id u) id s s₁ m there refl made in
            let same : s' ≡ s₁ = ground (arith, made, h) in
            subst Works (sym (ap (member id) same ∙ is)) active
      ]
  activate-Works id u s s' (some old) there h = elim (Bool-cases old.active) [
    | inl active ↦
        let same : s' ≡ s = ground (arith, active, h) in
        subst Works (sym (ap (member id) same ∙ there)) active
    | inr idle ↦ elim (outcome (staff.update tenant old.id (only_active true) s)) [
      | inr (e, s₁, failed) ↦ absurd (ground (arith, idle, failed, h))
      | inl (m, s₁, made) ↦
          let (is, active) = has.update_lem id (only_active true) s s₁ old m there refl made in
          let same : s' ≡ s₁ = ground (arith, idle, made, h) in
          subst Works (sym (ap (member id) same ∙ is)) active
    ]
  ]

  not_active : (m : Staff) → m.active ≡ false → ¬ (Works (some m))
  not_active m e w = ground (arith, e, w)

  deactivate_rests :
      (id : String) (s s' : S) (o : Option Staff)
      → member id s ≡ o
      → deactivate users roles staff tenant o s ≡ (ok tt, s')
      → ¬ (Works (member id s'))
  deactivate_rests id s s' none there h =
      let same : s' ≡ s = ground (arith, h) in
      subst (λ o. ¬ (Works o)) (sym (ap (member id) same ∙ there)) (λ w. w)
  deactivate_rests id s s' (some old) there h = elim (Bool-cases old.active) [
    | inr idle ↦
        let same : s' ≡ s = ground (arith, idle, h) in
        subst (λ o. ¬ (Works o)) (sym (ap (member id) same ∙ there)) (not_active old idle)
    | inl active ↦ elim (outcome (staff.update tenant old.id (only_active false) s)) [
      | inr (e, s₁, failed) ↦ absurd (ground (arith, active, failed, h))
      | inl (m, s₁, made) ↦
          let (is, idle) = has.update_lem id (only_active false) s s₁ old m there refl made in
          let same : s' ≡ s₁ = ground (arith, active, made, h) in
          subst (λ o. ¬ (Works o)) (sym (ap (member id) same ∙ is)) (not_active m idle)
    ]
  ]

  sync_staff-Works :
      (id : String) (u : User) (role : Role) (s s' : S)
      → sync_staff users roles staff tenant id u role s ≡ (ok tt, s')
      → Works (member id s') ↔ (role.name ≡ staff_role)
  unfolding sync_staff
  sync_staff-Works id u role s s' h = elim (Bool-cases (str_eq role.name staff_role)) [
    | inl e ↦ (
      λ w. (str_eq_iff role.name staff_role).0 e,
      λ n. activate-Works id u s s' (member id s) refl (ground (arith, has.find_lem id s, e, h)),
    )
    | inr e ↦ (
      λ w.
          absurd (
            deactivate_rests id s s' (member id s) refl (ground (arith, has.find_lem id s, e, h))
              w),
      λ n. absurd (ground (arith, e, (str_eq_iff role.name staff_role).1 n)),
    )
  ]

  -- The last call of the use case, after the others went well.
  deleted :
      (cache : CacheProvider S) (user_id role_id : String) (s s₁ s₂ s' : S) (u : User) (role : Role)
      (r : UseCaseResult User)
      → truthy tenant ≡ true
      → users.find_by_id user_id s ≡ ok (some u)
      → roles.find_by_id tenant role_id s ≡ ok (some role)
      → users.add_tenant user_id tenant role_id s ≡ (ok tt, s₁)
      → sync_staff users roles staff tenant user_id u role s₁ ≡ (ok tt, s₂)
      → assign_role users roles staff cache (some tenant) user_id role_id s ≡ (ok r, s')
      → s' ≡ (cache.del (cache_key user_id tenant) s₂).1
  unfolding assign_role
  deleted cache user_id role_id s s₁ s₂ s' u role r filled found known added synced h =
      elim (answer (users.find_by_id user_id s₂)) [
        | inr (e, failed) ↦ absurd (ground (arith, filled, found, known, added, synced, failed))
        | inl (o, read) ↦ elim (outcome (cache.del (cache_key user_id tenant) s₂)) [
          | inr (e, s₃, failed) ↦
              absurd (ground (arith, filled, found, known, added, synced, read, failed))
          | inl (v, s₃, gone) ↦ ground (arith, filled, found, known, added, synced, read, gone)
        ]
      ]

  -- After a role was assigned in a named tenant, the user was found, and so was the role in the
  -- tenant. The staff member that the lookup by user answers is there and active exactly when the
  -- name of the role is STAFF; nothing is said of further staff members of the user. The cached
  -- permissions of the user for the tenant are gone. The cache is one that forgets the deleted keys
  -- and leaves the staff as it is.
  pub assign_role-Works :
      (cache : CacheProvider S)
      → ((key k : String) (s : S) → member k (cache.del key s).1 ≡ member k s)
      → ((key : String) (s : S) → cache.get key (cache.del key s).1 ≡ ok none)
      → (user_id role_id : String) (s s' : S) (r : UseCaseResult User) → truthy tenant ≡ true
      → assign_role users roles staff cache (some tenant) user_id role_id s ≡ (ok r, s')
      → (u : User) × (users.find_by_id user_id s ≡ ok (some u))
        × (role : Role) × (roles.find_by_id tenant role_id s ≡ ok (some role))
        × (Works (member user_id s') ↔ (role.name ≡ staff_role))
        × (cache.get (cache_key user_id tenant) s' ≡ ok none)
  unfolding assign_role
  assign_role-Works cache leaves clears user_id role_id s s' r filled h =
      elim (answer (users.find_by_id user_id s)) [
        | inr (e, failed) ↦ absurd (ground (arith, filled, failed))
        | inl (none, found) ↦ absurd (ground (arith, filled, found))
        | inl (some u, found) ↦ elim (answer (roles.find_by_id tenant role_id s)) [
          | inr (e, failed) ↦ absurd (ground (arith, filled, found, failed))
          | inl (none, known) ↦ absurd (ground (arith, filled, found, known))
          | inl (some role, known) ↦ elim (outcome (users.add_tenant user_id tenant role_id s)) [
            | inr (e, s₁, failed) ↦ absurd (ground (arith, filled, found, known, failed))
            | inl (v, s₁, added) ↦
                elim (outcome (sync_staff users roles staff tenant user_id u role s₁)) [
                  | inr (e, s₂, failed) ↦
                      absurd (ground (arith, filled, found, known, added, failed))
                  | inl (w, s₂, synced) ↦
                      let last : s' ≡ (cache.del (cache_key user_id tenant) s₂).1 =
                        deleted cache user_id role_id s s₁ s₂ s' u role r filled found known added
                          synced h in
                      (
                        u,
                        found,
                        role,
                        known,
                        subst (λ o. Works o ↔ (role.name ≡ staff_role))
                            (sym (
                              ap (member user_id) last
                              ∙ leaves (cache_key user_id tenant) user_id s₂))
                            (sync_staff-Works user_id u role s₁ s₂ synced),
                        ap (cache.get (cache_key user_id tenant)) last
                            ∙ clears (cache_key user_id tenant) s₂,
                      )
                ]
          ]
        ]
      ]
