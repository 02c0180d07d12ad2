-- ===== src/Team/Prisma/Laws.antt =====
-- What the staff repository keeps: infrastructure/database/prisma/staff.prisma-repository.ts.
use mathlib.Core.Option
use api_neutra_v.Prelude.{
  ◌≡◌, inl, inr, refl, ap, sym, ◌∙◌, subst, Bool, true, String, Option, none, some, List, [], ◌∷◌,
  ◌++◌, map, find, find_holds, find-append, found_after, or_default, or_else, str_eq, str_eq_iff,
  List-cases, Option-cases, if◌then◌else◌, arith,
}
use api_neutra_v.Runtime.{ok, ask, Action, outcome, UseCaseResult}
use api_neutra_v.Booking.Entity.{Staff}
use api_neutra_v.Team.{CreateStaffData, UpdateStaffData}
use api_neutra_v.Team.Assigned.{HasStaff}
use api_neutra_v.Team.Prisma.{
  StaffRow, StaffColumns, StaffClient, map_to_entity, staff_of, is_staff, is_user, new_staff,
  create, find_by_user_id, update, replace_links, sync_services, get_services, sync_staff_services,
  staff_repository,
}

-- The documented behaviour of the client. `rows` is the table of staff, whose ids belong to one row
-- each, and `links` are the services of a staff member.
pub record IsStaffClient {DB : Type 0} (client : StaffClient DB) (rows : DB → List StaffRow)
    (links : String → String → DB → List String) : Type 0 where
  pub find_lem : (p : StaffRow → Bool) (db : DB) → client.find_first p db ≡ ok (find p (rows db))
  pub create_lem :
      (d : StaffColumns) (r : StaffRow) (db db' : DB)
      → client.create d db ≡ (ok r, db')
      → (r.tenant_id ≡ d.tenant_id)
        × (r.user_id ≡ d.user_id)
        × (r.active ≡ d.active)
        × (rows db' ≡ rows db ++ (r ∷ []))
  pub update_lem :
      (p : StaffRow → Bool) (tenant id : String) (d : UpdateStaffData) (old r : StaffRow)
      (db db' : DB)
      → find p (rows db) ≡ some old
      → is_staff tenant id old ≡ true
      → client.update id tenant d db ≡ (ok r, db')
      → (r.tenant_id ≡ tenant)
        × (r.user_id ≡ or_else d.user_id old.user_id)
        × (r.active ≡ or_default d.active old.active)
        × (rows db' ≡ map (λ x. if is_staff tenant id x then r else x) (rows db))
  pub links_lem :
      (tenant id : String) (db : DB) → client.find_links tenant id db ≡ ok (links tenant id db)
  pub delete_links_lem :
      (tenant id : String) (db : DB) → links tenant id (client.delete_links tenant id db).1 ≡ []
  pub create_links_lem :
      (tenant id : String) (ids : List String) (db db' : DB)
      → links tenant id db ≡ []
      → client.create_links tenant id ids db ≡ (ok tt, db')
      → links tenant id db' ≡ ids
  pub transaction_lem :
      (m : Action DB (Unit {0})) (db db' : DB)
      → client.transaction m db ≡ (ok tt, db')
      → m db ≡ (ok tt, db')

str_eq_refl : (s : String) → str_eq s s ≡ true
str_eq_refl s = (str_eq_iff s s).1 refl

of_user :
    (tenant user : String) (r : StaffRow)
    → r.user_id ≡ some user
    → r.tenant_id ≡ tenant
    → is_user tenant user r ≡ true
of_user tenant user r h k = rw (h, k, str_eq_refl user) (str_eq_refl tenant)

user_of_row :
    (tenant user : String) (r : StaffRow)
    → is_user tenant user r ≡ true
    → (r.user_id ≡ some user) × (r.tenant_id ≡ tenant)
user_of_row tenant user r h = elim (Option-cases r.user_id) [
  | inl bare ↦ absurd (ground (arith, bare, h))
  | inr (u, has) ↦ (
    has ∙ ap some ((str_eq_iff u user).0 (ground (arith, has, h))),
    (str_eq_iff r.tenant_id tenant).0 (ground (arith, has, h)),
  )
]

module _ {DB : Type 0} (client : StaffClient DB) (rows : DB → List StaffRow)
    (links : String → String → DB → List String) (is : IsStaffClient client rows links)
    (tenant : String) where
  abbrev entity : Option StaffRow → Option Staff
  entity o = Option.map staff_of (Option.map map_to_entity o)

  -- The staff member of a user.
  abbrev pub member : String → DB → Option Staff
  member user db = entity (find (is_user tenant user) (rows db))

  found :
      (user : String) (db : DB)
      → (staff_repository client).find_by_user_id tenant user db ≡ ok (member user db)
  unfolding find_by_user_id
  found user db =
      ap (λ x. ask (Option.map staff_of) (ask (Option.map map_to_entity) x))
        (is.find_lem (is_user tenant user) db)

  nobody : (o : Option StaffRow) → entity o ≡ none → o ≡ none
  nobody none h = refl
  nobody (some r) h = absurd (ground (arith, h))

  somebody :
      (o : Option StaffRow) (m : Staff)
      → entity o ≡ some m
      → (r : StaffRow) × (o ≡ some r) × (staff_of (map_to_entity r) ≡ m)
  somebody none m h = absurd (ground (arith, h))
  somebody (some r) m h = (r, refl, ground (arith, h))

  created :
      (d : CreateStaffData) (user : String) (db db' : DB) (m : Staff)
      → member user db ≡ none
      → d.user_id ≡ some user
      → (staff_repository client).create tenant d db ≡ (ok m, db')
      → (member user db' ≡ some m) × (m.active ≡ or_default d.active true)
  unfolding create
  created d user db db' m missing mine h = elim (outcome (client.create (new_staff tenant d) db)) [
    | inr (e, db₁, failed) ↦ absurd (ground (arith, failed, h))
    | inl (r, db₁, made) ↦
        let (owner, of, on, table) = is.create_lem (new_staff tenant d) r db db₁ made in
        let is_m : staff_of (map_to_entity r) ≡ m = ground (arith, made, h) in
        let here : db₁ ≡ db' = ground (arith, made, h) in
        (
          ap (member user) (sym here)
              ∙ ap (λ t. entity (find (is_user tenant user) t)) table
              ∙ ap entity (
                  find-append (is_user tenant user) (rows db) r
                    (nobody (find (is_user tenant user) (rows db)) missing)
                    (of_user tenant user r (of ∙ mine) owner))
              ∙ ap some is_m,
          ap (λ (x : Staff). x.active) (sym is_m) ∙ on,
        )
  ]

  updated :
      (user : String) (d : UpdateStaffData) (db db' : DB) (old m : Staff)
      → member user db ≡ some old
      → d.user_id ≡ none
      → (staff_repository client).update tenant old.id d db ≡ (ok m, db')
      → (member user db' ≡ some m) × (m.active ≡ or_default d.active old.active)
  unfolding update
  updated user d db db' old m there bare h = elim (outcome (client.update old.id tenant d db)) [
    | inr (e, db₁, failed) ↦ absurd (ground (arith, failed, h))
    | inl (r, db₁, made) ↦
        let p = is_user tenant user in
        let (row, it, same) = somebody (find p (rows db)) old there in
        let (his, ours) = user_of_row tenant user row (find_holds p (rows db) row it) in
        let fits : is_staff tenant old.id row ≡ true =
          rw (ours, ap (λ (x : Staff). x.id) same, str_eq_refl old.id) (str_eq_refl tenant) in
        let (owner, of, on, table) = is.update_lem p tenant old.id d row r db db₁ it fits made in
        let is_m : staff_of (map_to_entity r) ≡ m = ground (arith, made, h) in
        let here : db₁ ≡ db' = ground (arith, made, h) in
        (
          ap (member user) (sym here)
              ∙ ap (λ t. entity (find p t)) table
              ∙ ap entity (
                  found_after p (is_staff tenant old.id) r row (rows db)
                    (of_user tenant user r (of ∙ ap (λ o. or_else o row.user_id) bare ∙ his) owner)
                    fits it)
              ∙ ap some is_m,
          ap (λ (x : Staff). x.active) (sym is_m)
              ∙ on
              ∙ ap (λ (x : Staff). or_default d.active x.active) same,
        )
  ]

  -- The Prisma repository keeps the staff member of a user as the assignment of roles needs it: the
  -- lookup by user answers it, a creation for a user without one and an update of it are what the
  -- lookup answers from then on.
  pub staff_repository-HasStaff : HasStaff (staff_repository client) tenant member
  staff_repository-HasStaff = record {
    find_lem = found;
    create_lem = λ d user db db' m missing mine h. created d user db db' m missing mine h;
    update_lem = λ user d db db' old m there bare h. updated user d db db' old m there bare h;
  }

  replaced :
      (staff : String) (ids : List String) (db db' : DB)
      → replace_links client tenant staff ids db ≡ (ok tt, db')
      → links tenant staff db' ≡ ids
  unfolding replace_links
  replaced staff ids db db' h = elim (outcome (client.delete_links tenant staff db)) [
    | inr (e, db₁, failed) ↦ absurd (ground (arith, failed, h))
    | inl (u, db₁, cleared) ↦
        let bare : links tenant staff db₁ ≡ [] =
          ap (λ x. links tenant staff x.1) (sym cleared) ∙ is.delete_links_lem tenant staff db in
        elim (List-cases ids) [
          | inl empty ↦
              subst (λ x. links tenant staff x ≡ ids) {x = db₁} {y = db'}
                (ground (arith, cleared, empty, h)) (bare ∙ sym empty)
          | inr (x, xs, filled) ↦
              is.create_links_lem tenant staff ids db₁ db' bare (ground (arith, cleared, filled, h))
        ]
  ]

  -- Whatever services a staff member had, after a synchronisation they are the given ones, in one
  -- transaction, and the repository answers them.
  pub sync_staff_services_lem :
      (staff : String) (given : Option (List String)) (db db' : DB) (r : UseCaseResult (Unit {0}))
      → sync_staff_services client tenant staff given db ≡ (ok r, db')
      → (ids : List String) × (given ≡ some ids) × (get_services client tenant staff db' ≡ ok ids)
  unfolding sync_staff_services sync_services
  sync_staff_services_lem staff none db db' r h = absurd (ground (arith, h))
  sync_staff_services_lem staff (some ids) db db' r h =
      elim (outcome (client.transaction (replace_links client tenant staff ids) db)) [
        | inr (e, db₁, failed) ↦ absurd (ground (arith, failed, h))
        | inl (u, db₁, ran) ↦
            let here : db₁ ≡ db' = ground (arith, ran, h) in
            let wrote =
              is.transaction_lem (replace_links client tenant staff ids) db db'
                (ran ∙ ap (λ x. (ok tt, x)) here) in
            (ids, refl, is.links_lem tenant staff db' ∙ ap ok (replaced staff ids db db' wrote))
      ]
