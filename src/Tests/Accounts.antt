-- ===== src/Tests/Accounts.antt =====
-- Accounts: a database of one user that does what is assumed of Prisma, and runs over it.
use api_neutra_v.Prelude.{
  ◌≡◌, ◌≢◌, refl, ◌∙◌, ap, sym, subst, inl, inr, Bool, true, false, String, Option, none, some, [],
  ◌∷◌, str_eq, str_eq_iff, or_default, Bool-cases, arith, if◌then◌else◌,
}
use api_neutra_v.Prelude.Int.{pos}
use api_neutra_v.Errors.{prisma, Thrown}
use api_neutra_v.Runtime.{ok-injective, ok, err, Action}
use api_neutra_v.Access.{User}
use api_neutra_v.Account.{UserCreateData, UserChanges, AccountRepository}
use api_neutra_v.Account.Stored.{IsAccounts}
use api_neutra_v.Account.Prisma.{UserRow, TenantRow, RoleRow, UserClient, user_repository}
use api_neutra_v.Account.Prisma.Database.{written, IsUserClient}
use api_neutra_v.Account.Prisma.Laws.{accounts_of, user_repository-IsAccounts}

abbrev pub Db : Type 0
Db = Option UserRow

abbrev pub rows : Bool → String → Db → Option UserRow
rows full id none = none
rows full id (some r) = if str_eq r.id id then some r else none

abbrev found : (UserRow → Bool) → Db → Option UserRow
found p none = none
found p (some r) = if p r then some r else none

abbrev not_found : Thrown
not_found = prisma "P2025" none ""

abbrev set_columns : String → UserChanges → Action Db UserRow
set_columns id d none = (err not_found, none)
set_columns id d (some r) =
    if str_eq r.id id then (ok (written d r), some (written d r)) else (err not_found, some r)

abbrev pub new_row : UserCreateData → String → UserRow
new_row d password = record {
  id = "u1";
  name = d.name;
  email = d.email;
  password = password;
  profile_pic = d.profile_pic;
  phone = d.phone;
  push_token = d.push_token;
  active = or_default d.active true;
  google_id = d.google_id;
  facebook_id = d.facebook_id;
  twitter_id = d.twitter_id;
  github_id = d.github_id;
  reset_password_token = none;
  reset_password_expires = none;
  tenants = [];
}

abbrev insert : UserCreateData → Option String → Action Db UserRow
insert d none db = (err (prisma "P2012" none ""), db)
insert d (some password) none = (ok (new_row d password), some (new_row d password))
insert d (some password) (some r) = (err (prisma "P2002" (some "email") ""), some r)

abbrev pub given_role : String → RoleRow
given_role id = record {
  id = id;
  name = "USER";
  description = none;
  level = pos 1;
  active = true;
  permissions = none;
}

abbrev pub member_of : String → String → String → TenantRow
member_of id tenant role = record {
  id = "m1";
  user_id = id;
  tenant_id = tenant;
  role_id = role;
  role = some (given_role role);
  tenant = none;
}

abbrev upsert : String → String → String → Action Db (Unit {0})
upsert id tenant role none = (err not_found, none)
upsert id tenant role (some r) =
    if str_eq r.id id
    then (ok tt, some (record r { tenants = member_of id tenant role ∷ [] }))
    else (err not_found, some r)

abbrev pub client : UserClient Db
client = record {
  find_many = λ tenant db. ok [];
  find_user = λ full p db. ok (found p db);
  find_provider = λ field id db. ok none;
  find_role = λ tenant role db. ok [];
  find_months = λ tenant db. ok [];
  count_users = λ tenant db. ok (pos 1);
  count_admins = λ tenant db. ok (pos 0);
  create_user = λ d db. insert d d.password db;
  update_id = set_columns;
  update_email = λ email field id picture db. (ok tt, db);
  delete_user = λ id db. (err not_found, none);
  upsert_tenant = λ key role new. upsert new.user_id new.tenant_id new.role_id;
  delete_tenant = λ id tenant db. (ok tt, db);
  find_tenants = λ id db. ok [];
}

stored_id :
    (full : Bool) (id : String) (r q : UserRow)
    → rows full id (some r) ≡ some q
    → (str_eq r.id id ≡ true) × (r ≡ q)
stored_id full id r q h = elim (Bool-cases (str_eq r.id id)) [
  | inr e ↦ absurd (ground (arith, e, h))
  | inl e ↦ (e, ground (arith, e, h))
]

same : (s : String) → str_eq s s ≡ true
same s = (str_eq_iff s s).1 refl

update_law :
    (full : Bool) (id : String) (d : UserChanges) (db db' : Db) (r q : UserRow)
    → rows full id db ≡ some r
    → set_columns id d db ≡ (ok q, db')
    → rows full id db' ≡ some (written d r)
update_law full id d none db' r q there h = absurd (ground (arith, there))
update_law full id d (some t) db' r q there h =
    let (e, is) = stored_id full id t r there in
    let last : db' ≡ some (written d t) = ground (arith, e, h) in
    ap (rows full id) last ∙ (rw e refl) ∙ ap (λ x. some (written d x)) is

some_law :
    (full : Bool) (id : String) (p : UserRow → Bool) (db : Db) (r : UserRow)
    → rows full id db ≡ some r
    → p r ≡ true
    → found p db ≡ some r
some_law full id p none r there h = absurd (ground (arith, there))
some_law full id p (some t) r there h =
    let (e, is) = stored_id full id t r there in rw (ap p is ∙ h) (ap some is)

row_law :
    (full : Bool) (p : UserRow → Bool) (db : Db) (q : UserRow)
    → found p db ≡ some q
    → (rows full q.id db ≡ some q) × (p q ≡ true)
row_law full p none q h = absurd (ground (arith, h))
row_law full p (some t) q h = elim (Bool-cases (p t)) [
  | inr e ↦ absurd (ground (arith, e, h))
  | inl e ↦
      subst (λ x. (rows full x.id (some t) ≡ some x) × (p x ≡ true)) {x = t} {y = q}
        (ground (arith, e, h)) (rw (same t.id) refl, e)
]

key_law : (full : Bool) (id : String) (db : Db) (r : UserRow) → rows full id db ≡ some r → r.id ≡ id
key_law full id none r there = absurd (ground (arith, there))
key_law full id (some t) r there =
    let (e, is) = stored_id full id t r there in
    ap (λ (x : UserRow). x.id) (sym is) ∙ (str_eq_iff t.id id).0 e

one_law :
    (full : Bool) (id k : String) (db : Db) (r q : UserRow)
    → rows full id db ≡ some r
    → rows full k db ≡ some q
    → id ≡ k
one_law full id k none r q there here = absurd (ground (arith, there))
one_law full id k (some t) r q there here =
    let (e, is) = stored_id full id t r there in
    let (f, it) = stored_id full k t q here in
    sym ((str_eq_iff t.id id).0 e) ∙ (str_eq_iff t.id k).0 f

update_works :
    (id : String) (d : UserChanges) (db : Db) (r : UserRow)
    → rows false id db ≡ some r
    → (q : UserRow) × (db' : Db) × (set_columns id d db ≡ (ok q, db'))
update_works id d none r there = absurd (ground (arith, there))
update_works id d (some t) r there =
    let (e, is) = stored_id false id t r there in (written d t, some (written d t), rw e refl)

update_others :
    (full : Bool) (id k : String) (d : UserChanges) (db : Db)
    → k ≢ id
    → rows full k (set_columns id d db).1 ≡ rows full k db
update_others full id k d none apart = refl
update_others full id k d (some t) apart = elim (Bool-cases (str_eq t.id id)) [
  | inr e ↦ rw e refl
  | inl e ↦ elim (Bool-cases (str_eq t.id k)) [
    | inr f ↦ rw (e, f) refl
    | inl f ↦ absurd (apart (sym ((str_eq_iff t.id k).0 f) ∙ (str_eq_iff t.id id).0 e))
  ]
]

create_law :
    (d : UserCreateData) (password : Option String) (db db' : Db) (r : UserRow)
    → insert d password db ≡ (ok r, db')
    → (r.email ≡ d.email)
      × (r.name ≡ d.name)
      × (password ≡ some r.password)
      × (r.tenants ≡ [])
      × ((full : Bool) → rows full r.id db' ≡ some r)
create_law d none db db' r h = absurd (ground (arith, h))
create_law d (some password) (some t) db' r h = absurd (ground (arith, h))
create_law d (some password) none db' r h =
    subst {A = UserRow × Db}
      (λ x.
        (x.0.email ≡ d.email)
        × (x.0.name ≡ d.name)
        × (some password ≡ some x.0.password)
        × (x.0.tenants ≡ [])
        × ((full : Bool) → rows full x.0.id x.1 ≡ some x.0))
      {x = (new_row d password, some (new_row d password))} {y = (r, db')} (ground (arith, h))
      (refl, refl, refl, refl, λ full. refl)

upsert_law :
    (full : Bool) (id user tenant role : String) (db db' : Db) (r : UserRow)
    → user ≡ id
    → rows full id db ≡ some r
    → upsert user tenant role db ≡ (ok tt, db')
    → rows full id db' ≡ some (record r { tenants = member_of user tenant role ∷ [] })
upsert_law full id user tenant role none db' r mine there h = absurd (ground (arith, there))
upsert_law full id user tenant role (some t) db' r mine there h =
    let (e, is) = stored_id full id t r there in
    let f : str_eq t.id user ≡ true = ap (str_eq t.id) mine ∙ e in
    let last : db' ≡ some (record t { tenants = member_of user tenant role ∷ [] }) =
      ground (arith, f, h) in
    ap (rows full id) last
    ∙ rw e refl
    ∙ ap {A = UserRow} (λ x. some (record x { tenants = member_of user tenant role ∷ [] })) is

pub client-IsUserClient : IsUserClient client rows
client-IsUserClient = record {
  answers_lem = λ full p db. (found p db, refl);
  some_lem = λ full id p db r there h. (r, ap ok (some_law full id p db r there h));
  row_lem = λ full p db q h. row_law full p db q (ok-injective h);
  key_lem = key_law;
  email_lem = λ full id k db r q there here mails. one_law full id k db r q there here;
  update_works = λ id d db r there bare. update_works id d db r there;
  update_lem = update_law;
  update_others = update_others;
  create_lem = λ d db db' r made. create_law d d.password db db' r made;
  upsert_lem = λ full id role key new db db' r there alone keyed mine added. (
    member_of new.user_id new.tenant_id new.role_id,
    upsert_law full id new.user_id new.tenant_id new.role_id db db' r mine there added,
    refl,
    given_role new.role_id,
    refl,
    refl,
  );
}

abbrev pub store : AccountRepository Db
store = user_repository client (λ a b. pos 0)

abbrev pub accounts : Bool → String → Db → Option User
accounts = accounts_of client (λ a b. pos 0) rows client-IsUserClient

user_repository-IsAccounts_example : IsAccounts store accounts
user_repository-IsAccounts_example =
    user_repository-IsAccounts client (λ a b. pos 0) rows client-IsUserClient
