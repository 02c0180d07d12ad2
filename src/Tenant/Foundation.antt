-- ===== src/Tenant/Foundation.antt =====
-- What creating a tenant needs of the repositories, and what core/application/tenant/
-- create-tenant.use-case.ts does to permissions and to a single role with them.
use api_neutra_v.Prelude.{
  ◌≡◌, inl, inr, refl, ap, sym, subst, ◌∙◌, true, String, Option, some, List, [], ◌∷◌, map, all,
  All, includes, str_eq_iff, ◌<>◌, str_eq, Bool-cases, arith,
}
use api_neutra_v.Runtime.{ok, outcome}
use api_neutra_v.Access.{Permission, Role}
use api_neutra_v.Account.{AccountRepository}
use api_neutra_v.Roles.{RolePreset, RoleStore, PermissionStore}
use api_neutra_v.Tenant.{TenantRepository}
use api_neutra_v.Tenant.Create.{id_of, ids_of, preset, DefaultRole, upsert_all}

abbrev pub names : List Permission → List String
names ps = map (λ p. p.name) ps

module _ {S : Type 0} (name_of : String → S → Option String) where
  -- The permissions of a list are in the store, under their names.
  abbrev pub AreNamed : S → List Permission → Type 0
  AreNamed s ps = All (λ p. name_of p.id s ≡ some p.name) ps

  id_of_lem :
      (s : S) (ps : List Permission) (name : String)
      → AreNamed s ps
      → includes (names ps) name ≡ true
      → (id : String) × (id_of ps name ≡ some id) × (name_of id s ≡ some name)
  id_of_lem s [] name known h = absurd (ground (arith, h))
  id_of_lem s (p ∷ ps) name known h = elim (Bool-cases (str_eq p.name name)) [
    | inl e ↦ (p.id, rw e refl, known.0 ∙ ap some ((str_eq_iff p.name name).0 e))
    | inr e ↦
        let (id, found, is) = id_of_lem s ps name known.1 (ground (arith, e, h)) in
        (id, ground (arith, e, found), is)
  ]

  -- The ids stand for the wanted names, in order: no permission that exists is lost.
  ids_of_lem :
      (s : S) (ps : List Permission) (wanted : List String)
      → AreNamed s ps
      → all (includes (names ps)) wanted ≡ true
      → map (λ k. name_of k s) (ids_of ps wanted) ≡ map some wanted
  ids_of_lem s ps [] known h = refl
  ids_of_lem s ps (name ∷ rest) known h =
      let (id, found, is) = id_of_lem s ps name known (ground (arith, h)) in
      let step = ids_of_lem s ps rest known (ground (arith, h)) in
      let ids : ids_of ps (name ∷ rest) ≡ id ∷ ids_of ps rest = ground (arith, found) in
      ap (map (λ k. name_of k s)) ids
      ∙ ap (λ o. o ∷ map (λ k. name_of k s) (ids_of ps rest)) is
      ∙ ap (λ l. some name ∷ l) step

  AreNamed-keeps :
      (s s' : S) (ps : List Permission)
      → ((k n : String) → name_of k s ≡ some n → name_of k s' ≡ some n)
      → AreNamed s ps
      → AreNamed s' ps
  AreNamed-keeps s s' [] keeps h = tt
  AreNamed-keeps s s' (p ∷ ps) keeps h = (keeps p.id p.name h.0, AreNamed-keeps s s' ps keeps h.1)

-- What the use case needs of the repositories. In the store, `role_of` is the role of a user in a
-- tenant, `role_at` the name and the permissions of a role of a tenant, and `name_of` the name of a
-- permission. What is created is new.
pub record IsFoundation {S : Type 0} (users : AccountRepository S) (roles : RoleStore S)
    (permissions : PermissionStore S) (role_of : String → String → S → Option String)
    (role_at : String → String → S → Option (String × List String))
    (name_of : String → S → Option String) : Type 0 where
  pub upsert_lem :
      (tenant name description : String) (s s' : S) (p : Permission)
      → permissions.upsert_by_name tenant name description s ≡ (ok p, s')
      → (p.name ≡ name)
        × (name_of p.id s' ≡ some name)
        × ((k n : String) → name_of k s ≡ some n → name_of k s' ≡ some n)
  pub create_lem :
      (tenant : String) (d : RolePreset) (s s' : S) (r : Role)
      → roles.create_with_permissions tenant d s ≡ (ok r, s')
      → (role_at tenant r.id s' ≡ some (d.name, d.permission_ids))
        × ((t k : String) (x : String × List String)
            → role_at t k s ≡ some x
            → role_at t k s' ≡ some x)
        × ((k : String) → name_of k s' ≡ name_of k s)
  pub add_lem :
      (user tenant role : String) (s s' : S)
      → users.add_tenant user tenant role s ≡ (ok tt, s')
      → (role_of user tenant s' ≡ some role)
        × ((t k : String) → role_at t k s' ≡ role_at t k s)
        × ((k : String) → name_of k s' ≡ name_of k s)

module _ {S : Type 0} (role_at : String → String → S → Option (String × List String))
    (name_of : String → S → Option String) where
  -- The store has the role of the tenant, with exactly the permissions of these names.
  abbrev pub HasRole : String → String → String → List String → S → Type 0
  HasRole tenant id name wanted s =
      (ids : List String) × (role_at tenant id s ≡ some (name, ids))
      × (map (λ k. name_of k s) ids ≡ map some wanted)

  pub HasRole-keeps :
      (tenant id name : String) (wanted : List String) (s s' : S)
      → ((x : String × List String) → role_at tenant id s ≡ some x → role_at tenant id s' ≡ some x)
      → ((k : String) → name_of k s' ≡ name_of k s)
      → HasRole tenant id name wanted s
      → HasRole tenant id name wanted s'
  HasRole-keeps tenant id name wanted s s' roles_kept names_kept (ids, there, named) =
      (ids, roles_kept (name, ids) there, same_names ids ∙ named)
    where
      same_names : (ids : List String) → map (λ k. name_of k s') ids ≡ map (λ k. name_of k s) ids
      same_names [] = refl
      same_names (k ∷ ks) = rw (names_kept k, same_names ks) refl

module _ {S : Type 0} (tenants : TenantRepository S) (users : AccountRepository S)
    (roles : RoleStore S) (permissions : PermissionStore S)
    (role_of : String → String → S → Option String)
    (role_at : String → String → S → Option (String × List String))
    (name_of : String → S → Option String)
    (is : IsFoundation users roles permissions role_of role_at name_of) where
  pub upsert_all_named :
      (tenant : String) (wanted : List String) (s s' : S) (ps : List Permission)
      → upsert_all tenants users roles permissions tenant wanted s ≡ (ok ps, s')
      → (names ps ≡ wanted)
        × AreNamed name_of s' ps
        × ((k n : String) → name_of k s ≡ some n → name_of k s' ≡ some n)
  unfolding upsert_all
  upsert_all_named tenant [] s s' ps h =
      let empty : [] ≡ ps = ground (arith, h) in
      let same : s ≡ s' = ground (arith, h) in
      (
        ap (λ x. names x) (sym empty),
        subst (AreNamed name_of s') empty tt,
        λ k n there. ap (name_of k) (sym same) ∙ there,
      )
  upsert_all_named tenant (name ∷ rest) s s' ps h =
      elim (outcome (permissions.upsert_by_name tenant name ("Permission for " <> name) s)) [
        | inr (e, s₁, failed) ↦ absurd (ground (arith, failed, h))
        | inl (p, s₁, made) ↦
            elim (outcome (upsert_all tenants users roles permissions tenant rest s₁)) [
              | inr (e, s₂, failed) ↦ absurd (ground (arith, made, failed, h))
              | inl (qs, s₂, others) ↦
                  let same : p ∷ qs ≡ ps = ground (arith, made, others, h) in
                  let last : s₂ ≡ s' = ground (arith, made, others, h) in
                  let (called, there, kept) =
                    is.upsert_lem tenant name ("Permission for " <> name) s s₁ p made in
                  let (rest_named, rest_there, rest_kept) =
                    upsert_all_named tenant rest s₁ s' qs (others ∙ ap (λ x. (ok qs, x)) last) in
                  (
                    ap (λ x. names x) (sym same)
                        ∙ ap (λ n. n ∷ names qs) called
                        ∙ ap (λ ns. name ∷ ns) rest_named,
                    subst (AreNamed name_of s') same
                        (rest_kept p.id name there ∙ ap some (sym called), rest_there),
                    λ k n was. rest_kept k n (kept k n was),
                  )
            ]
      ]

  -- A role that is created from the permissions of the store.
  pub created_role :
      (tenant : String) (ps : List Permission) (r : DefaultRole) (s s' : S) (made : Role)
      → AreNamed name_of s ps
      → all (includes (names ps)) r.permissions ≡ true
      → roles.create_with_permissions tenant (preset ps r) s ≡ (ok made, s')
      → HasRole role_at name_of tenant made.id r.name r.permissions s'
  created_role tenant ps r s s' made known all_there h =
      let (there, kept, same) = is.create_lem tenant (preset ps r) s s' made h in
      (
        ids_of ps r.permissions,
        there,
        ids_of_lem name_of s' ps r.permissions
            (AreNamed-keeps name_of s s' ps (λ k n was. same k ∙ was) known) all_there,
      )

  -- What a further role leaves: the permissions, and the roles that are there.
  pub kept_named :
      (tenant : String) (ps : List Permission) (d : RolePreset) (s s' : S) (made : Role)
      → roles.create_with_permissions tenant d s ≡ (ok made, s')
      → AreNamed name_of s ps
      → AreNamed name_of s' ps
  kept_named tenant ps d s s' made h =
      let (there, kept, same) = is.create_lem tenant d s s' made h in
      AreNamed-keeps name_of s s' ps (λ k n was. same k ∙ was)

  pub kept_role :
      (tenant id name : String) (wanted : List String) (d : RolePreset) (s s' : S) (made : Role)
      → roles.create_with_permissions tenant d s ≡ (ok made, s')
      → HasRole role_at name_of tenant id name wanted s
      → HasRole role_at name_of tenant id name wanted s'
  kept_role tenant id name wanted d s s' made h =
      let (there, kept, same) = is.create_lem tenant d s s' made h in
      HasRole-keeps role_at name_of tenant id name wanted s s' (kept tenant id) same
