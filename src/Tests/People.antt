-- ===== src/Tests/People.antt =====
-- Users, a tenant and repositories for the tests.
use api_neutra_v.Prelude.{true, String, none, []}
use api_neutra_v.Prelude.Int.{pos}
use api_neutra_v.Errors.{other}
use api_neutra_v.Runtime.{ok, err}
use api_neutra_v.Access.{User}
use api_neutra_v.Tenant.{Tenant, TenantRepository, store}
use api_neutra_v.Account.{AccountRepository}
use api_neutra_v.Roles.{RoleStore}

abbrev pub person : String → String → String → User
person id name email = record {
  id = id;
  name = name;
  email = email;
  password = none;
  profile_pic = none;
  phone = none;
  push_token = none;
  active = true;
  google_id = none;
  facebook_id = none;
  twitter_id = none;
  github_id = none;
  tenants = [];
  tenant = none;
  role = none;
  reset_password_token = none;
  reset_password_expires = none;
}

-- A repository of users that answers nothing and writes nothing.
abbrev pub no_accounts : {S : Type 0} → AccountRepository S
no_accounts = record {
  find_all = λ tenant s. ok [];
  find_by_email = λ email options s. ok none;
  find_by_id = λ id options s. ok none;
  find_by_provider = λ field id s. ok none;
  create = λ d s. (err other, s);
  update = λ id d s. (err other, s);
  link_provider = λ email field id picture s. (err other, s);
  get_users_stats = λ tenant s. ok [];
  get_summary_stats = λ tenant s. err other;
  find_by_role_id = λ tenant role s. ok [];
  find_by_reset_token = λ token now s. ok none;
  delete = λ id s. (ok tt, s);
  add_tenant = λ user tenant role s. (ok tt, s);
  remove_tenant = λ user tenant s. (ok tt, s);
  get_user_tenants = λ user s. ok [];
}

abbrev pub no_roles : {S : Type 0} → RoleStore S
no_roles = record {
  find_all = λ tenant s. ok [];
  find_by_id = λ tenant id s. ok none;
  find_by_name = λ tenant name s. ok none;
  create = λ tenant d s. (err other, s);
  update = λ tenant id d s. (err other, s);
  delete = λ tenant id s. (ok tt, s);
  create_with_permissions = λ tenant d s. (err other, s);
  assign_permission = λ role permission s. (ok tt, s);
}

abbrev pub no_tenants : {S : Type 0} → TenantRepository S
no_tenants = record {
  find_by_id = λ id s. ok none;
  find_by_slug = λ slug s. ok none;
  find_all = λ s. ok [];
  create = λ d s. (err other, s);
  update = λ id d s. (err other, s);
  delete = λ id s. (ok tt, s);
}

abbrev pub shop : Tenant
shop = record {
  id = "t1";
  name = "Shop";
  slug = "shop";
  type = store;
  config = none;
  active = true;
  created_at = pos 0;
  updated_at = pos 0;
}
