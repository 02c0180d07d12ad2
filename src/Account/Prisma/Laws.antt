-- ===== src/Account/Prisma/Laws.antt =====
-- The Prisma repository of the users does what the use cases on accounts need, over a client that
-- does what Prisma documents.
use mathlib.Core.Option
use api_neutra_v.Prelude.{
  ◌≡◌, ◌≢◌, ◌↔◌, true, str_eq, str_eq_iff, inl, inr, refl, ap, sym, ◌∙◌, Bool, false, String,
  Option, none, some, [], map, subst, List-cases, Option-cases, arith,
}
use api_neutra_v.Prelude.Int.{ℤ}
use api_neutra_v.Runtime.{ok, ask, Time, outcome, answer}
use api_neutra_v.Access.{User, UserTenant, Role}
use api_neutra_v.Account.{UserCreateData, UserChanges, FindUserOptions}
use api_neutra_v.Account.Stored.{IsAccounts, Opens, changed, joined, with_membership}
use api_neutra_v.Account.Prisma.{
  UserRow, UserClient, map_to_user, map_tenant_relation, map_role_from_prisma, update_columns,
  create_columns, user_repository, find_by_email, find_by_id, create, update, find_by_reset_token,
  add_tenant, has_email, has_id, opened_by,
}
use api_neutra_v.Account.Prisma.Database.{written, IsUserClient}

row_change :
    (d : UserChanges) (r : UserRow)
    → ◌≡◌ {A = Option User}
        (some (map_to_user (written (update_columns d) r)))
        (some (changed d (map_to_user r)))
row_change d r = elim (Option-cases d.password) [ inl e ↦ rw e refl | inr (p, e) ↦ rw e refl ]

-- The test of the repository is that the token opens the account.
pub opened_by_iff :
    (token : String) (now : Time) (r : UserRow)
    → Opens token now (map_to_user r) ↔ (opened_by token now r ≡ true)
opened_by_iff token now r = (
  λ (has, end, ends, soon).
      let fits : str_eq token token ≡ true = (str_eq_iff token token).1 refl in
      ground (arith, has, ends, soon, fits),
  λ e. elim (Option-cases r.reset_password_token) [
    | inl bare ↦ absurd (ground (arith, bare, e))
    | inr (t, has) ↦ elim (Option-cases r.reset_password_expires) [
      | inl bare ↦ absurd (ground (arith, bare, e))
      | inr (end, ends) ↦ (
        has ∙ ap some ((str_eq_iff t token).0 (ground (arith, has, ends, e))),
        end,
        ends,
        ground (arith, has, ends, e),
      )
    ]
  ],
)

module _ {DB : Type 0} (client : UserClient DB) (compare : String → String → ℤ)
    (rows : Bool → String → DB → Option UserRow) (is : IsUserClient client rows) where
  abbrev pub accounts_of : Bool → String → DB → Option User
  accounts_of full id db = Option.map map_to_user (rows full id db)

  -- The row behind an account.
  row_of :
      (full : Bool) (id : String) (db : DB) (u : User)
      → accounts_of full id db ≡ some u
      → (r : UserRow) × (rows full id db ≡ some r) × (map_to_user r ≡ u)
  row_of full id db u there = elim (Option-cases (rows full id db)) [
    | inl gone ↦ absurd (ground (arith, gone, there))
    | inr (r, found) ↦ (r, found, ground (arith, found, there))
  ]

  -- A lookup by a test that one row passes alone answers that row.
  finds :
      (full : Bool) (id : String) (p : UserRow → Bool) (db : DB) (r : UserRow)
      → rows full id db ≡ some r
      → p r ≡ true
      → ((q : UserRow) → rows full q.id db ≡ some q → p q ≡ true → q.id ≡ id)
      → client.find_user full p db ≡ ok (some r)
  finds full id p db r there fits alone =
      let (q, read) = is.some_lem full id p db r there fits in
      let (stored, holds) = is.row_lem full p db q read in
      let same : rows full id db ≡ some q =
        ap (λ k. rows full k db) (sym (alone q stored holds)) ∙ stored in
      read ∙ ap ok (sym same ∙ there)

  id_law :
      (id : String) (options : FindUserOptions) (db : DB)
      → find_by_id client compare id options db ≡ ok (accounts_of (joined options) id db)
  unfolding find_by_id
  id_law id options db = elim (Option-cases (rows (joined options) id db)) [
    | inr (r, there) ↦ ap (ask (Option.map map_to_user)) (
        finds (joined options) id (has_id id) db r there
          ((str_eq_iff r.id id).1 (is.key_lem (joined options) id db r there))
          (λ q stored holds. (str_eq_iff q.id id).0 holds)
        ∙ ap ok (sym there))
    | inl gone ↦ elim (answer (client.find_user (joined options) (has_id id) db)) [
      | inr (e, failed) ↦
          let (o, read) = is.answers_lem (joined options) (has_id id) db in
          absurd (ground (arith, failed, read))
      | inl (none, read) ↦ ap (ask (Option.map map_to_user)) (read ∙ ap ok (sym gone))
      | inl (some q, read) ↦
          let (stored, holds) = is.row_lem (joined options) (has_id id) db q read in
          let here : rows (joined options) id db ≡ some q =
            ap (λ k. rows (joined options) k db) (sym ((str_eq_iff q.id id).0 holds)) ∙ stored in
          absurd (ground (arith, here, gone))
    ]
  ]

  email_law :
      (id : String) (options : FindUserOptions) (db : DB) (u : User)
      → accounts_of (joined options) id db ≡ some u
      → find_by_email client compare u.email options db ≡ ok (some u)
  unfolding find_by_email
  email_law id options db u there =
      let (r, found, same) = row_of (joined options) id db u there in
      subst (λ v. find_by_email client compare v.email options db ≡ ok (some v)) same
        (ap (ask (Option.map map_to_user)) (
          finds (joined options) id (has_email r.email) db r found
            ((str_eq_iff r.email r.email).1 refl)
            (λ q stored holds.
              is.email_lem (joined options) q.id id db q r stored found
                ((str_eq_iff q.email r.email).0 holds))))

  by_email_law :
      (email : String) (options : FindUserOptions) (db : DB) (u : User)
      → find_by_email client compare email options db ≡ ok (some u)
      → accounts_of (joined options) u.id db ≡ some u
  unfolding find_by_email
  by_email_law email options db u h =
      elim (answer (client.find_user (joined options) (has_email email) db)) [
        | inr (e, failed) ↦ absurd (ground (arith, failed, h))
        | inl (none, nobody) ↦ absurd (ground (arith, nobody, h))
        | inl (some r, read) ↦
            subst (λ v. accounts_of (joined options) v.id db ≡ some v) {x = map_to_user r} {y = u}
              (ground (arith, read, h))
              (ap (Option.map map_to_user)
                (is.row_lem (joined options) (has_email email) db r read).0)
      ]

  token_law :
      (id token : String) (now : Time) (db : DB) (u : User)
      → accounts_of false id db ≡ some u
      → Opens token now u
      → (v : User) × (find_by_reset_token client compare token now db ≡ ok (some v))
  unfolding find_by_reset_token
  token_law id token now db u there opens =
      let (r, found, same) = row_of false id db u there in
      let (q, read) =
        is.some_lem false id (opened_by token now) db r found
          ((opened_by_iff token now r).0 (subst (Opens token now) (sym same) opens)) in
      (map_to_user q, ap (ask (Option.map map_to_user)) read)

  by_token_law :
      (token : String) (now : Time) (db : DB) (v : User)
      → find_by_reset_token client compare token now db ≡ ok (some v)
      → (accounts_of false v.id db ≡ some v) × Opens token now v
  unfolding find_by_reset_token
  by_token_law token now db v h = elim (answer (client.find_user false (opened_by token now) db)) [
    | inr (e, failed) ↦ absurd (ground (arith, failed, h))
    | inl (none, nobody) ↦ absurd (ground (arith, nobody, h))
    | inl (some q, read) ↦
        let (stored, holds) = is.row_lem false (opened_by token now) db q read in
        subst (λ v. (accounts_of false v.id db ≡ some v) × Opens token now v) {x = map_to_user q}
          {y = v} (ground (arith, read, h))
          (ap (Option.map map_to_user) stored, (opened_by_iff token now q).1 holds)
  ]

  update_works_law :
      (id : String) (d : UserChanges) (db : DB) (u : User)
      → accounts_of false id db ≡ some u
      → d.email ≡ none
      → (v : User) × (db' : DB) × (update client compare id d db ≡ (ok v, db'))
  unfolding update
  update_works_law id d db u there bare =
      let (r, found, same) = row_of false id db u there in
      let (q, db', wrote) = is.update_works id (update_columns d) db r found bare in
      (map_to_user q, db', ground (arith, wrote))

  update_law :
      (full : Bool) (id : String) (d : UserChanges) (db db' : DB) (u v : User)
      → accounts_of full id db ≡ some u
      → update client compare id d db ≡ (ok v, db')
      → accounts_of full id db' ≡ some (changed d u)
  unfolding update
  update_law full id d db db' u v there h =
      let (r, found, same) = row_of full id db u there in
      elim (outcome (client.update_id id (update_columns d) db)) [
        | inr (e, db₁, failed) ↦ absurd (ground (arith, failed, h))
        | inl (q, db₁, wrote) ↦
            let last : db' ≡ db₁ = ground (arith, wrote, h) in
            ap (accounts_of full id) last
            ∙ ap (Option.map map_to_user)
                (is.update_lem full id (update_columns d) db db₁ r q found wrote)
            ∙ row_change d r
            ∙ ap (λ o. some (changed d o)) same
      ]

  update_others_law :
      (full : Bool) (id k : String) (d : UserChanges) (db : DB)
      → k ≢ id
      → accounts_of full k (update client compare id d db).1 ≡ accounts_of full k db
  unfolding update
  update_others_law full id k d db apart =
      let kept = is.update_others full id k (update_columns d) db apart in
      elim (outcome (client.update_id id (update_columns d) db)) [
        | inr (e, db₁, failed) ↦ ground (arith, failed, kept)
        | inl (q, db₁, wrote) ↦ ground (arith, wrote, kept)
      ]

  create_law :
      (d : UserCreateData) (db db' : DB) (u : User)
      → create client compare d db ≡ (ok u, db')
      → (u.email ≡ d.email)
        × (u.name ≡ d.name)
        × (u.password ≡ d.password)
        × (u.tenants ≡ [])
        × ((full : Bool) → accounts_of full u.id db' ≡ some u)
  unfolding create
  create_law d db db' u h = elim (outcome (client.create_user (create_columns d) db)) [
    | inr (e, db₁, failed) ↦ absurd (ground (arith, failed, h))
    | inl (r, db₁, made) ↦
        let (mail, name, password, alone, there) = is.create_lem (create_columns d) db db₁ r made in
        let last : db₁ ≡ db' = ground (arith, made, h) in
        subst
          (λ v.
            (v.email ≡ d.email)
            × (v.name ≡ d.name)
            × (v.password ≡ d.password)
            × (v.tenants ≡ [])
            × ((full : Bool) → accounts_of full v.id db' ≡ some v))
          {x = map_to_user r} {y = u} (ground (arith, made, h))
          (
            mail,
            name,
            sym password,
            ap (map map_tenant_relation) alone,
            λ full.
                ap (accounts_of full r.id) (sym last) ∙ ap (Option.map map_to_user) (there full),
          )
  ]

  add_tenant_law :
      (full : Bool) (id tenant role : String) (db db' : DB) (u : User)
      → accounts_of full id db ≡ some u
      → u.tenants ≡ []
      → add_tenant client compare id tenant role db ≡ (ok tt, db')
      → (ut : UserTenant) × (accounts_of full id db' ≡ some (with_membership u ut))
        × (ut.tenant_id ≡ tenant)
        × (r : Role) × (ut.role ≡ some r)
        × (r.id ≡ role)
  unfolding add_tenant
  add_tenant_law full id tenant role db db' u there alone added =
      let (r, found, same) = row_of full id db u there in
      let none_yet : r.tenants ≡ [] = elim (List-cases r.tenants) [
        | inl e ↦ e
        | inr (t, ts, e) ↦ absurd (ground (arith, e, ap (λ v. v.tenants) same ∙ alone))
      ] in
      let (ut, now_there, of_tenant, given, has, is_role) =
        is.upsert_lem full id role (record { user_id = id; tenant_id = tenant })
          (record { user_id = id; tenant_id = tenant; role_id = role }) db db' r found none_yet refl
          refl added in
      (
        map_tenant_relation ut,
        ap (Option.map map_to_user) now_there
            ∙ ap (λ v. some (with_membership v (map_tenant_relation ut))) same,
        of_tenant,
        map_role_from_prisma given,
        ap (Option.map map_role_from_prisma) has,
        is_role,
      )

  -- Over a Prisma client that does what is documented, the repository of the users keeps accounts as
  -- the use cases need them.
  pub user_repository-IsAccounts : IsAccounts (user_repository client compare) accounts_of
  user_repository-IsAccounts = record {
    id_lem = id_law;
    email_lem = email_law;
    by_email_lem = by_email_law;
    token_lem = token_law;
    by_token_lem = by_token_law;
    update_works = update_works_law;
    update_lem = update_law;
    update_others = update_others_law;
    create_lem = create_law;
    add_tenant_lem = add_tenant_law;
  }
