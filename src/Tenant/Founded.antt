-- ===== src/Tenant/Founded.antt =====
-- What a new tenant has: core/application/tenant/create-tenant.use-case.ts.
use api_neutra_v.Prelude.{
  ◌≡◌, inl, inr, ap, subst, ◌∙◌, String, Option, none, some, List, [], ◌∷◌, all, includes, arith,
}
use api_neutra_v.Runtime.{ok, outcome, answer, UseCaseResult}
use api_neutra_v.Access.{Permission, Role}
use api_neutra_v.Account.{AccountRepository}
use api_neutra_v.Roles.{RoleStore, PermissionStore}
use api_neutra_v.Tenant.{Tenant, TenantRepository}
use api_neutra_v.Tenant.Create.{
  CreateTenantDto, default_permissions, staff_permissions, user_permissions, admin, staff, user,
  preset, new_tenant, upsert_all, create_roles, create_tenant,
}
use api_neutra_v.Tenant.Foundation.{
  names, AreNamed, IsFoundation, HasRole, HasRole-keeps, upsert_all_named, created_role, kept_named,
  kept_role,
}

module _ {S : Type 0} (tenants : TenantRepository S) (users : AccountRepository S)
    (roles : RoleStore S) (permissions : PermissionStore S)
    (role_of : String → String → S → Option String)
    (role_at : String → String → S → Option (String × List String))
    (name_of : String → S → Option String)
    (is : IsFoundation users roles permissions role_of role_at name_of) where
  -- The slug was free, the tenant is the one that was stored for the request; in the end it has the
  -- three default roles with their permissions, and the creator has the first.
  pub record IsFounded (d : CreateTenantDto) (creator : String) (s s' : S) (tenant : Tenant)
      : Type 0 where
    pub free : tenants.find_by_slug d.slug s ≡ ok none
    pub stored : (tenants.create (new_tenant d) s).0 ≡ ok tenant
    pub owner : String
    pub admin_role : HasRole role_at name_of tenant.id owner "ADMIN" default_permissions s'
    pub clerk : String
    pub staff_role : HasRole role_at name_of tenant.id clerk "STAFF" staff_permissions s'
    pub member : String
    pub user_role : HasRole role_at name_of tenant.id member "USER" user_permissions s'
    pub owns : role_of creator tenant.id s' ≡ some owner

  -- The three default roles of a tenant, of which the first is the result.
  create_roles_lem :
      (tenant : String) (ps : List Permission) (s s' : S) (o : Option Role)
      → AreNamed name_of s ps
      → names ps ≡ default_permissions
      → create_roles tenants users roles permissions tenant ps (admin ∷ staff ∷ user ∷ []) none s
        ≡ (ok o, s')
      → (owner clerk member : Role) × (o ≡ some owner)
        × HasRole role_at name_of tenant owner.id "ADMIN" default_permissions s'
        × HasRole role_at name_of tenant clerk.id "STAFF" staff_permissions s'
        × HasRole role_at name_of tenant member.id "USER" user_permissions s'
  unfolding create_roles
  create_roles_lem tenant ps s s' o known are h =
      elim (outcome (roles.create_with_permissions tenant (preset ps admin) s)) [
        | inr (e, s₁, failed) ↦ absurd (ground (arith, failed, h))
        | inl (a, s₁, first) ↦
            elim (outcome (roles.create_with_permissions tenant (preset ps staff) s₁)) [
              | inr (e, s₂, failed) ↦ absurd (ground (arith, first, failed, h))
              | inl (b, s₂, second) ↦
                  elim (outcome (roles.create_with_permissions tenant (preset ps user) s₂)) [
                    | inr (e, s₃, failed) ↦ absurd (ground (arith, first, second, failed, h))
                    | inl (c, s₃, third) ↦
                        let known₁ =
                          kept_named tenants users roles permissions role_of role_at name_of is
                            tenant ps (preset ps admin) s s₁ a first known in
                        let known₂ =
                          kept_named tenants users roles permissions role_of role_at name_of is
                            tenant ps (preset ps staff) s₁ s₂ b second known₁ in
                        let owner =
                          created_role tenants users roles permissions role_of role_at name_of is
                            tenant ps admin s s₁ a known
                            (ap (λ ns. all (includes ns) default_permissions) are) first in
                        let clerk =
                          created_role tenants users roles permissions role_of role_at name_of is
                            tenant ps staff s₁ s₂ b known₁
                            (ap (λ ns. all (includes ns) staff_permissions) are) second in
                        let member =
                          created_role tenants users roles permissions role_of role_at name_of is
                            tenant ps user s₂ s₃ c known₂
                            (ap (λ ns. all (includes ns) user_permissions) are) third in
                        let owner₂ =
                          kept_role tenants users roles permissions role_of role_at name_of is
                            tenant a.id "ADMIN" default_permissions (preset ps staff) s₁ s₂ b second
                            owner in
                        let last : s₃ ≡ s' = ground (arith, first, second, third, h) in
                        (
                          a,
                          b,
                          c,
                          ground (arith, first, second, third, h),
                          subst (HasRole role_at name_of tenant a.id "ADMIN" default_permissions)
                              last
                              (kept_role tenants users roles permissions role_of role_at name_of is
                                tenant a.id "ADMIN" default_permissions (preset ps user) s₂ s₃ c
                                third owner₂),
                          subst (HasRole role_at name_of tenant b.id "STAFF" staff_permissions) last
                              (kept_role tenants users roles permissions role_of role_at name_of is
                                tenant b.id "STAFF" staff_permissions (preset ps user) s₂ s₃ c third
                                clerk),
                          subst (HasRole role_at name_of tenant c.id "USER" user_permissions) last
                              member,
                        )
                  ]
            ]
      ]

  -- The last step makes the creator the owner.
  founded :
      (d : CreateTenantDto) (creator : String) (s s' before : S) (t : Tenant)
      (owner clerk member : String)
      → tenants.find_by_slug d.slug s ≡ ok none
      → (tenants.create (new_tenant d) s).0 ≡ ok t
      → HasRole role_at name_of t.id owner "ADMIN" default_permissions before
      → HasRole role_at name_of t.id clerk "STAFF" staff_permissions before
      → HasRole role_at name_of t.id member "USER" user_permissions before
      → users.add_tenant creator t.id owner before ≡ (ok tt, s')
      → IsFounded d creator s s' t
  founded d creator s s' before t owner clerk member free stored a b c added =
      let (owns, roles_kept, names_kept) = is.add_lem creator t.id owner before s' added in
      let keeps : (k : String) (x : String × List String)
          → role_at t.id k before ≡ some x
          → role_at t.id k s' ≡ some x =
        λ k x was. roles_kept t.id k ∙ was in
      record {
        free = free;
        stored = stored;
        owner = owner;
        admin_role =
            HasRole-keeps role_at name_of t.id owner "ADMIN" default_permissions before s'
              (keeps owner) names_kept a;
        clerk = clerk;
        staff_role =
            HasRole-keeps role_at name_of t.id clerk "STAFF" staff_permissions before s'
              (keeps clerk) names_kept b;
        member = member;
        user_role =
            HasRole-keeps role_at name_of t.id member "USER" user_permissions before s'
              (keeps member) names_kept c;
        owns = owns;
      }

  -- A tenant that was created had a free slug and is the one that was stored. In the end it has the
  -- roles ADMIN, STAFF and USER with exactly their default permissions, ADMIN with all of them, and
  -- its creator has the role ADMIN in it.
  pub create_tenant-IsFounded :
      (d : CreateTenantDto) (creator : String) (s s' : S) (r : UseCaseResult Tenant)
      → create_tenant tenants users roles permissions d creator s ≡ (ok r, s')
      → (t : Tenant) × (r.value ≡ some t) × IsFounded d creator s s' t
  unfolding create_tenant
  create_tenant-IsFounded d creator s s' r h = elim (answer (tenants.find_by_slug d.slug s)) [
    | inr (e, failed) ↦ absurd (ground (arith, failed, h))
    | inl (some t, taken) ↦ absurd (ground (arith, taken, h))
    | inl (none, free) ↦ elim (outcome (tenants.create (new_tenant d) s)) [
      | inr (e, s₁, failed) ↦ absurd (ground (arith, free, failed, h))
      | inl (t, s₁, made) ↦
          elim (outcome (upsert_all tenants users roles permissions t.id default_permissions s₁)) [
            | inr (e, s₂, failed) ↦ absurd (ground (arith, free, made, failed, h))
            | inl (ps, s₂, stored) ↦
                elim (outcome (
                  create_roles tenants users roles permissions t.id ps (admin ∷ staff ∷ user ∷ [])
                    none s₂)) [
                      | inr (e, s₃, failed) ↦ absurd (ground (arith, free, made, stored, failed, h))
                      | inl (o, s₃, created) ↦
                          let (are, known, _) =
                            upsert_all_named tenants users roles permissions role_of role_at name_of
                              is t.id default_permissions s₁ s₂ ps stored in
                          let (owner, clerk, member, chosen, has_owner, has_clerk, has_member) =
                            create_roles_lem t.id ps s₂ s₃ o known are created in
                          elim (outcome (users.add_tenant creator t.id owner.id s₃)) [
                            | inr (e, s₄, failed) ↦
                                absurd
                                  (ground (arith, free, made, stored, created, chosen, failed, h))
                            | inl (u, s₄, added) ↦
                                let last : s₄ ≡ s' =
                                  ground (arith, free, made, stored, created, chosen, added, h) in
                                (
                                  t,
                                  ground (arith, free, made, stored, created, chosen, added, h),
                                  founded d creator s s' s₃ t owner.id clerk.id member.id free
                                      (ap (λ x. x.0) made) has_owner has_clerk has_member
                                      (added ∙ ap (λ x. (ok tt, x)) last),
                                )
                          ]
                    ]
          ]
    ]
  ]
