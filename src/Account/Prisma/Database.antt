-- ===== src/Account/Prisma/Database.antt =====
-- The documented behaviour of the Prisma client of the users.
use api_neutra_v.Prelude.{
  ◌≡◌, ◌≢◌, Bool, true, false, String, Option, none, some, [], ◌∷◌, or_else, or_default,
}
use api_neutra_v.Runtime.{ok}
use api_neutra_v.Account.{UserCreateData, UserChanges}
use api_neutra_v.Account.Prisma.{
  RoleRow, TenantRow, UserRow, UserClient, MembershipKey, NewMembership,
}

-- The row after an update of the columns.
abbrev pub written : UserChanges → UserRow → UserRow
written d r = record r {
  name = or_default d.name r.name;
  email = or_default d.email r.email;
  password = or_default d.password r.password;
  profile_pic = or_else d.profile_pic r.profile_pic;
  phone = or_else d.phone r.phone;
  push_token = or_else d.push_token r.push_token;
  active = or_default d.active r.active;
  google_id = or_else d.google_id r.google_id;
  facebook_id = or_else d.facebook_id r.facebook_id;
  twitter_id = or_else d.twitter_id r.twitter_id;
  github_id = or_else d.github_id r.github_id;
  reset_password_token = or_else d.reset_password_token r.reset_password_token;
  reset_password_expires = or_else d.reset_password_expires r.reset_password_expires;
}

-- `rows full id` is the row with the id, with the permissions of its roles or without. A lookup
-- answers a row that passes its test, if there is one. Ids and e-mails belong to one row.
pub record IsUserClient {DB : Type 0} (client : UserClient DB)
    (rows : Bool → String → DB → Option UserRow) : Type 0 where
  pub answers_lem :
      (full : Bool) (p : UserRow → Bool) (db : DB)
      → (o : Option UserRow) × (client.find_user full p db ≡ ok o)
  pub some_lem :
      (full : Bool) (id : String) (p : UserRow → Bool) (db : DB) (r : UserRow)
      → rows full id db ≡ some r
      → p r ≡ true
      → (q : UserRow) × (client.find_user full p db ≡ ok (some q))
  pub row_lem :
      (full : Bool) (p : UserRow → Bool) (db : DB) (q : UserRow)
      → client.find_user full p db ≡ ok (some q)
      → (rows full q.id db ≡ some q) × (p q ≡ true)
  pub key_lem :
      (full : Bool) (id : String) (db : DB) (r : UserRow) → rows full id db ≡ some r → r.id ≡ id
  pub email_lem :
      (full : Bool) (id k : String) (db : DB) (r q : UserRow)
      → rows full id db ≡ some r
      → rows full k db ≡ some q
      → r.email ≡ q.email
      → id ≡ k
  pub update_works :
      (id : String) (d : UserChanges) (db : DB) (r : UserRow)
      → rows false id db ≡ some r
      → d.email ≡ none
      → (q : UserRow) × (db' : DB) × (client.update_id id d db ≡ (ok q, db'))
  pub update_lem :
      (full : Bool) (id : String) (d : UserChanges) (db db' : DB) (r q : UserRow)
      → rows full id db ≡ some r
      → client.update_id id d db ≡ (ok q, db')
      → rows full id db' ≡ some (written d r)
  pub update_others :
      (full : Bool) (id k : String) (d : UserChanges) (db : DB)
      → k ≢ id
      → rows full k (client.update_id id d db).1 ≡ rows full k db
  pub create_lem :
      (d : UserCreateData) (db db' : DB) (r : UserRow)
      → client.create_user d db ≡ (ok r, db')
      → (r.email ≡ d.email)
        × (r.name ≡ d.name)
        × (d.password ≡ some r.password)
        × (r.tenants ≡ [])
        × ((full : Bool) → rows full r.id db' ≡ some r)
  pub upsert_lem :
      (full : Bool) (id role : String) (key : MembershipKey) (new : NewMembership) (db db' : DB)
      (r : UserRow)
      → rows full id db ≡ some r
      → r.tenants ≡ []
      → key.user_id ≡ id
      → new.user_id ≡ id
      → client.upsert_tenant key role new db ≡ (ok tt, db')
      → (ut : TenantRow) × (rows full id db' ≡ some (record r { tenants = ut ∷ [] }))
        × (ut.tenant_id ≡ new.tenant_id)
        × (given : RoleRow) × (ut.role ≡ some given)
        × (given.id ≡ new.role_id)
