-- ===== src/Roles/Prisma/Laws.antt =====
-- Which roles a tenant reaches through the repository, and what an update leaves.
use api_neutra_v.Prelude.{
  ◌≡◌, ◌⊎◌, inl, inr, refl, ap, sym, ◌∙◌, Bool, true, String, Option, none, some, List, [], find,
  find_holds, is_some, str_eq_iff, truthy, List-cases, Option-cases, arith,
}
use api_neutra_v.Runtime.{ok, ok-injective, Action, outcome, answer}
use api_neutra_v.Access.{Role}
use api_neutra_v.Roles.{RoleUpdateData}
use api_neutra_v.Roles.Prisma.{RoleRow, RoleClient, is_role, replace, update, delete, find_by_id}

-- `rows` is the table of roles, and `links` the permissions of a role.
pub record IsRoleClient {DB : Type 0} (client : RoleClient DB) (rows : DB → List RoleRow)
    (links : String → DB → List String) : Type 0 where
  pub find_lem : (p : RoleRow → Bool) (db : DB) → client.find_first p db ≡ ok (find p (rows db))
  pub delete_lem : (id : String) (db : DB) → links id (client.delete_links id db).1 ≡ []
  pub create_lem :
      (id : String) (ids : List String) (db : DB)
      → links id db ≡ []
      → links id (client.create_links id ids db).1 ≡ ids
  pub transaction_lem :
      (m : Action DB Role) (r : Role) (db db' : DB)
      → client.transaction m db ≡ (ok r, db')
      → m db ≡ (ok r, db')

-- A role of the tenant, or one that belongs to no tenant.
abbrev pub IsReached : String → String → RoleRow → Type 0
IsReached tenant id r = (r.id ≡ id) × ((r.tenant_id ≡ none) ⊎ (r.tenant_id ≡ some tenant))

reached :
    (tenant id : String) (r : RoleRow)
    → truthy tenant ≡ true
    → is_role (some tenant) id r ≡ true
    → IsReached tenant id r
reached tenant id r named h = elim (Option-cases r.tenant_id) [
  | inl free ↦ ((str_eq_iff r.id id).0 (ground (arith, h)), inl free)
  | inr (t, owned) ↦ (
    (str_eq_iff r.id id).0 (ground (arith, h)),
    inr (owned ∙ ap some ((str_eq_iff t tenant).0 (ground (arith, named, owned, h)))),
  )
]

module _ {DB : Type 0} (client : RoleClient DB) (rows : DB → List RoleRow)
    (links : String → DB → List String) (is : IsRoleClient client rows links) where
  found :
      (tenant id : String) (db : DB) (o : Option RoleRow)
      → truthy tenant ≡ true
      → client.find_first (is_role (some tenant) id) db ≡ ok o
      → is_some o ≡ true
      → (r : RoleRow) × (o ≡ some r) × IsReached tenant id r
  found tenant id db none named h has = absurd (ground (arith, has))
  found tenant id db (some r) named h has = (
    r,
    refl,
    reached tenant id r named (
        find_holds (is_role (some tenant) id) (rows db) r
          (ok-injective (sym (is.find_lem (is_role (some tenant) id) db) ∙ h))),
  )

  -- A named tenant reads, updates and deletes only roles of its own and roles of no tenant.
  pub roles_reached :
      (tenant id : String) (d : RoleUpdateData) (db db' : DB) (role : Role)
      → truthy tenant ≡ true
      → (find_by_id client (some tenant) id db ≡ ok (some role))
        ⊎ ((update client (some tenant) id d db ≡ (ok role, db'))
            ⊎ (delete client (some tenant) id db ≡ (ok tt, db')))
      → (r : RoleRow) × (client.find_first (is_role (some tenant) id) db ≡ ok (some r))
        × IsReached tenant id r
  unfolding find_by_id update delete
  roles_reached tenant id d db db' role named h =
      elim (answer (client.find_first (is_role (some tenant) id) db)) [
        | inr (e, failed) ↦ absurd (ground (arith, failed, h))
        | inl (none, nothing) ↦ absurd (ground (arith, nothing, h))
        | inl (some r, read) ↦
            let (q, same, reaches) = found tenant id db (some r) named read refl in
            (q, read ∙ ap ok same, reaches)
      ]

  replace_lem :
      (id : String) (d : RoleUpdateData) (ids : List String) (db db' : DB) (role : Role)
      → replace client id d ids db ≡ (ok role, db')
      → links id db' ≡ ids
  unfolding replace
  replace_lem id d ids db db' role h = elim (outcome (client.update_role id d db)) [
    | inr (e, db₁, failed) ↦ absurd (ground (arith, failed, h))
    | inl (u, db₁, wrote) ↦ elim (outcome (client.delete_links id db₁)) [
      | inr (e, db₂, failed) ↦ absurd (ground (arith, wrote, failed, h))
      | inl (v, db₂, cleared) ↦
          let bare : links id db₂ ≡ [] =
            ap (λ x. links id x.1) (sym cleared) ∙ is.delete_lem id db₁ in
          elim (List-cases ids) [
            | inl empty ↦ elim (answer (client.find_unique id db₂)) [
              | inr (e, failed) ↦ absurd (ground (arith, wrote, cleared, empty, failed, h))
              | inl (none, gone) ↦ absurd (ground (arith, wrote, cleared, empty, gone, h))
              | inl (some r, read) ↦
                  let last : db' ≡ db₂ = ground (arith, wrote, cleared, empty, read, h) in
                  ap (links id) last ∙ bare ∙ sym empty
            ]
            | inr (i, rest, some_ids) ↦ elim (outcome (client.create_links id ids db₂)) [
              | inr (e, db₃, failed) ↦ absurd (ground (arith, wrote, cleared, some_ids, failed, h))
              | inl (w, db₃, linked) ↦ elim (answer (client.find_unique id db₃)) [
                | inr (e, failed) ↦
                    absurd (ground (arith, wrote, cleared, some_ids, linked, failed, h))
                | inl (none, gone) ↦
                    absurd (ground (arith, wrote, cleared, some_ids, linked, gone, h))
                | inl (some r, read) ↦
                    let last : db' ≡ db₃ =
                      ground (arith, wrote, cleared, some_ids, linked, read, h) in
                    ap (links id) last
                    ∙ ap (λ x. links id x.1) (sym linked)
                    ∙ is.create_lem id ids db₂ bare
              ]
            ]
          ]
    ]
  ]

  -- An update that names permissions leaves the role with exactly these.
  pub update_replaces :
      (tenant : Option String) (id : String) (d : RoleUpdateData) (ids : List String) (db db' : DB)
      (role : Role)
      → d.permission_ids ≡ some ids
      → update client tenant id d db ≡ (ok role, db')
      → links id db' ≡ ids
  unfolding update
  update_replaces tenant id d ids db db' role named h =
      elim (answer (client.find_first (is_role tenant id) db)) [
        | inr (e, failed) ↦ absurd (ground (arith, failed, h))
        | inl (none, nothing) ↦ absurd (ground (arith, nothing, h))
        | inl (some r, read) ↦ replace_lem id d ids db db' role (
            is.transaction_lem (replace client id d ids) role db db'
              (ground (arith, named, read, h)))
      ]
