-- ===== src/Account/Stored.antt =====
-- What the use cases on accounts need of the repository of the users.
use api_neutra_v.Prelude.{
  ◌≡◌, ◌≢◌, Bool, false, ◌&&◌, String, Option, none, some, [], ◌∷◌, or_else, or_default,
}
use api_neutra_v.Prelude.Int.{◌<ℤ◌}
use api_neutra_v.Runtime.{ok, Time}
use api_neutra_v.Access.{User, UserTenant, Role}
use api_neutra_v.Account.{UserCreateData, UserChanges, FindUserOptions, AccountRepository}

-- The user after an update; what the changes do not name stays.
abbrev pub changed : UserChanges → User → User
changed d u = record u {
  name = or_default d.name u.name;
  email = or_default d.email u.email;
  password = or_else d.password u.password;
  profile_pic = or_else d.profile_pic u.profile_pic;
  phone = or_else d.phone u.phone;
  push_token = or_else d.push_token u.push_token;
  active = or_default d.active u.active;
  google_id = or_else d.google_id u.google_id;
  facebook_id = or_else d.facebook_id u.facebook_id;
  github_id = or_else d.github_id u.github_id;
  reset_password_token = or_else d.reset_password_token u.reset_password_token;
  reset_password_expires = or_else d.reset_password_expires u.reset_password_expires;
}

-- The token opens the account at this time.
abbrev pub Opens : String → Time → User → Type 0
Opens token now u =
    (u.reset_password_token ≡ some token)
    × (end : Time) × (u.reset_password_expires ≡ some end)
    × (now <ℤ end)

-- The permissions of the roles are read too.
abbrev pub joined : FindUserOptions → Bool
joined options = options.include_role && options.include_permissions

abbrev pub with_membership : User → UserTenant → User
with_membership u ut = record u { tenants = ut ∷ []; tenant = ut.tenant; role = ut.role }

-- `row full id` reads a user off the store, with the permissions of the roles or without. The
-- database answers, and no update of a password or a token fails.
pub record IsAccounts {S : Type 0} (users : AccountRepository S)
    (row : Bool → String → S → Option User) : Type 0 where
  pub id_lem :
      (id : String) (options : FindUserOptions) (s : S)
      → users.find_by_id id options s ≡ ok (row (joined options) id s)
  pub email_lem :
      (id : String) (options : FindUserOptions) (s : S) (u : User)
      → row (joined options) id s ≡ some u
      → users.find_by_email u.email options s ≡ ok (some u)
  pub by_email_lem :
      (email : String) (options : FindUserOptions) (s : S) (u : User)
      → users.find_by_email email options s ≡ ok (some u)
      → row (joined options) u.id s ≡ some u
  pub token_lem :
      (id token : String) (now : Time) (s : S) (u : User)
      → row false id s ≡ some u
      → Opens token now u
      → (v : User) × (users.find_by_reset_token token now s ≡ ok (some v))
  pub by_token_lem :
      (token : String) (now : Time) (s : S) (v : User)
      → users.find_by_reset_token token now s ≡ ok (some v)
      → (row false v.id s ≡ some v) × Opens token now v
  pub update_works :
      (id : String) (d : UserChanges) (s : S) (u : User)
      → row false id s ≡ some u
      → d.email ≡ none
      → (v : User) × (s' : S) × (users.update id d s ≡ (ok v, s'))
  pub update_lem :
      (full : Bool) (id : String) (d : UserChanges) (s s' : S) (u v : User)
      → row full id s ≡ some u
      → users.update id d s ≡ (ok v, s')
      → row full id s' ≡ some (changed d u)
  pub update_others :
      (full : Bool) (id k : String) (d : UserChanges) (s : S)
      → k ≢ id
      → row full k (users.update id d s).1 ≡ row full k s
  pub create_lem :
      (d : UserCreateData) (s s' : S) (u : User)
      → users.create d s ≡ (ok u, s')
      → (u.email ≡ d.email)
        × (u.name ≡ d.name)
        × (u.password ≡ d.password)
        × (u.tenants ≡ [])
        × ((full : Bool) → row full u.id s' ≡ some u)
  pub add_tenant_lem :
      (full : Bool) (id tenant role : String) (s s' : S) (u : User)
      → row full id s ≡ some u
      → u.tenants ≡ []
      → users.add_tenant id tenant role s ≡ (ok tt, s')
      → (ut : UserTenant) × (row full id s' ≡ some (with_membership u ut))
        × (ut.tenant_id ≡ tenant)
        × (r : Role) × (ut.role ≡ some r)
        × (r.id ≡ role)
