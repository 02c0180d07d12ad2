-- ===== src/Roles/Changed.antt =====
-- What a change of a role does to those who have it, and which roles stay.
use api_neutra_v.Prelude.{
  ◌≡◌, inl, inr, refl, ap, sym, ◌∙◌, true, String, Option, none, some, List, [], ◌∷◌, All, truthy,
  arith,
}
use api_neutra_v.Errors.Http.{http_status_from_domain_error}
use api_neutra_v.Errors.Middleware.{error_middleware}
use api_neutra_v.Runtime.{ok, outcome, answer, UseCaseResult, success_of, Refuses}
use api_neutra_v.Access.{Role, User, CacheProvider}
use api_neutra_v.Access.Session.{cache_key}
use api_neutra_v.Account.{AccountRepository}
use api_neutra_v.Team.{named}
use api_neutra_v.Roles.{
  RoleStore, RoleUpdateData, forget, update_role, delete_role, is_system_role, check_name,
}

-- What is removed from the cache is gone, and nothing else appears.
pub record IsForgetting {S : Type 0} (cache : CacheProvider S) : Type 0 where
  pub del_lem : (key : String) (s : S) → cache.get key (cache.del key s).1 ≡ ok none
  pub others :
      (key k : String) (s : S) → cache.get k s ≡ ok none → cache.get k (cache.del key s).1 ≡ ok none

module _ {S : Type 0} (roles : RoleStore S) where
  -- The cached permissions of the user for the tenant are gone.
  abbrev pub IsForgotten : CacheProvider S → String → S → User → Type 0
  IsForgotten cache tenant s u = cache.get (cache_key u.id tenant) s ≡ ok none

  forget_keeps :
      (cache : CacheProvider S)
      → IsForgetting cache
      → (tenant key : String) (us : List User) (s s' : S) → cache.get key s ≡ ok none
      → forget roles cache tenant us s ≡ (ok tt, s')
      → cache.get key s' ≡ ok none
  unfolding forget
  forget_keeps cache is tenant key [] s s' gone h = ap (cache.get key) (ground (arith, h)) ∙ gone
  forget_keeps cache is tenant key (u ∷ us) s s' gone h =
      elim (outcome (cache.del (cache_key u.id tenant) s)) [
        | inr (e, s₁, failed) ↦ absurd (ground (arith, failed, h))
        | inl (v, s₁, deleted) ↦
            forget_keeps cache is tenant key us s₁ s'
              (ap (λ x. cache.get key x.1) (sym deleted)
                ∙ is.others (cache_key u.id tenant) key s gone)
              (ground (arith, deleted, h))
      ]

  forget-All :
      (cache : CacheProvider S)
      → IsForgetting cache
      → (tenant : String) (us : List User) (s s' : S) → forget roles cache tenant us s ≡ (ok tt, s')
      → All (IsForgotten cache tenant s') us
  unfolding forget
  forget-All cache is tenant [] s s' h = tt
  forget-All cache is tenant (u ∷ us) s s' h =
      elim (outcome (cache.del (cache_key u.id tenant) s)) [
        | inr (e, s₁, failed) ↦ absurd (ground (arith, failed, h))
        | inl (v, s₁, deleted) ↦
            let rest : forget roles cache tenant us s₁ ≡ (ok tt, s') = ground (arith, deleted, h) in
            (
              forget_keeps cache is tenant (cache_key u.id tenant) us s₁ s'
                  (ap (λ x. cache.get (cache_key u.id tenant) x.1) (sym deleted)
                    ∙ is.del_lem (cache_key u.id tenant) s)
                  rest,
              forget-All cache is tenant us s₁ s' rest,
            )
      ]

  -- The check of a new name writes nothing.
  check_name_keeps :
      (tenant : Option String) (id : String) (name : Option String) (s s' : S)
      → check_name roles tenant id name s ≡ (ok tt, s')
      → s' ≡ s
  check_name_keeps tenant id none s s' h = ground (arith, h)
  check_name_keeps tenant id (some name) s s' h = elim (answer (roles.find_by_name tenant name s)) [
    | inr (e, failed) ↦ absurd (ground (arith, failed, h))
    | inl (o, found) ↦ ground (arith, found, h)
  ]

  -- After an update of a role in a named tenant, the role was updated as was asked, and the cache has
  -- no permissions of any user whom the lookup by role, made after the update, answers.
  pub update_role_forgets :
      (users : AccountRepository S) (cache : CacheProvider S)
      → IsForgetting cache
      → (tenant id : String) (d : RoleUpdateData) (s s' : S) (r : UseCaseResult Role)
      → truthy tenant ≡ true
      → update_role roles users cache (some tenant) id d s ≡ (ok r, s')
      → (new : Role) × (s₁ : S) × (roles.update (some tenant) id d s ≡ (ok new, s₁))
        × (r ≡ success_of (some new) "Role updated successfully")
        × (holders : List User) × (users.find_by_role_id tenant id s₁ ≡ ok holders)
        × All (IsForgotten cache tenant s') holders
  unfolding update_role
  update_role_forgets users cache is tenant id d s s' r filled h =
      elim (answer (roles.find_by_id (some tenant) id s)) [
        | inr (e, failed) ↦ absurd (ground (arith, failed, h))
        | inl (none, nothing) ↦ absurd (ground (arith, nothing, h))
        | inl (some old, read) ↦
            elim (outcome (check_name roles (some tenant) id (named d.name) s)) [
              | inr (e, s₀, failed) ↦ absurd (ground (arith, read, failed, h))
              | inl (u, s₀, passed) ↦ elim (outcome (roles.update (some tenant) id d s₀)) [
                | inr (e, s₁, failed) ↦ absurd (ground (arith, read, passed, failed, h))
                | inl (new, s₁, wrote) ↦ elim (answer (users.find_by_role_id tenant id s₁)) [
                  | inr (e, failed) ↦
                      absurd (ground (arith, filled, read, passed, wrote, failed, h))
                  | inl (holders, held) ↦ elim (outcome (forget roles cache tenant holders s₁)) [
                    | inr (e, s₂, failed) ↦
                        absurd (ground (arith, filled, read, passed, wrote, held, failed, h))
                    | inl (w, s₂, forgot) ↦
                        let last : s₂ ≡ s' =
                          ground (arith, filled, read, passed, wrote, held, forgot, h) in
                        let kept = check_name_keeps (some tenant) id (named d.name) s s₀ passed in
                        (
                          new,
                          s₁,
                          ap (roles.update (some tenant) id d) (sym kept) ∙ wrote,
                          ground (arith, filled, read, passed, wrote, held, forgot, h),
                          holders,
                          held,
                          forget-All cache is tenant holders s₁ s' (ground (arith, forgot, last)),
                        )
                  ]
                ]
              ]
            ]
      ]

  -- The roles ADMIN and USER are not deleted: the answer is 403 and nothing changes.
  pub delete_role_refused :
      (tenant : Option String) (id : String) (s : S) (role : Role)
      → roles.find_by_id tenant id s ≡ ok (some role)
      → is_system_role role.name ≡ true
      → Refuses 403 s (delete_role roles tenant id s)
  unfolding delete_role error_middleware http_status_from_domain_error
  delete_role_refused tenant id s role found system = rw (found, system) (refl, refl)
