-- ===== src/Account.antt =====
-- Accounts: core/repositories/user.repository.interface.ts and the jobs of the queue.
pub mod Password
pub mod Stored
pub mod Reset
pub mod Register
pub mod Registered
pub mod Social
pub mod Users
pub mod Provided
pub mod Prisma
use api_neutra_v.Prelude.{ℕ, Bool, true, false, String, Option, List}
use api_neutra_v.Prelude.Int.{ℤ}
use api_neutra_v.Runtime.{Result, Action, Time}
use api_neutra_v.Access.{User, UserTenant, UserRepository}

pub record UserCreateData : Type 0 where
  pub name : String
  pub email : String
  pub password : Option String
  pub profile_pic : Option String
  pub phone : Option String
  pub push_token : Option String
  pub active : Option Bool
  pub google_id : Option String
  pub facebook_id : Option String
  pub twitter_id : Option String
  pub github_id : Option String

-- `Partial<User>`, of which the repository reads these. `undefined` is the absent value.
pub record UserChanges : Type 0 where
  pub name : Option String
  pub email : Option String
  pub password : Option String
  pub profile_pic : Option String
  pub phone : Option String
  pub push_token : Option String
  pub active : Option Bool
  pub google_id : Option String
  pub facebook_id : Option String
  pub twitter_id : Option String
  pub github_id : Option String
  pub reset_password_token : Option String
  pub reset_password_expires : Option Time

pub record FindUserOptions : Type 0 where
  pub include_role : Bool
  pub include_permissions : Bool

pub record SummaryStats : Type 0 where
  pub total_users : ℤ
  pub admin_users : ℤ
  pub regular_users : ℤ

-- `IUserRepository`. The clock of `findByResetToken` is an argument.
pub record AccountRepository (S : Type 0) : Type 0 where
  pub find_all : Option String → S → Result (List User)
  pub find_by_email : String → FindUserOptions → S → Result (Option User)
  pub find_by_id : String → FindUserOptions → S → Result (Option User)
  pub find_by_provider : String → String → S → Result (Option User)
  pub create : UserCreateData → Action S User
  pub update : String → UserChanges → Action S User
  pub link_provider : String → String → String → Option String → Action S User
  pub get_users_stats : Option String → S → Result (List (String × ℕ))
  pub get_summary_stats : Option String → S → Result SummaryStats
  pub find_by_role_id : String → String → S → Result (List User)
  pub find_by_reset_token : String → Time → S → Result (Option User)
  pub delete : String → Action S (Unit {0})
  pub add_tenant : String → String → String → Action S (Unit {0})
  pub remove_tenant : String → String → Action S (Unit {0})
  pub get_user_tenants : String → S → Result (List UserTenant)

abbrev pub no_options : FindUserOptions
no_options = record { include_role = false; include_permissions = false }

abbrev pub with_role_only : FindUserOptions
with_role_only = record { include_role = true; include_permissions = false }

abbrev pub everything : FindUserOptions
everything = record { include_role = true; include_permissions = true }

-- The repository as signing in calls it.
abbrev pub signing_in : {S : Type 0} → AccountRepository S → UserRepository S
signing_in repo = record {
  find_by_email = λ email. repo.find_by_email email everything;
  find_by_id = λ id. repo.find_by_id id everything;
  add_tenant = repo.add_tenant;
}

-- The jobs for the mail about accounts.
pub data AccountJob : Type 0 where
  welcome_email : (email name tenant : String) (origin : Option String) → AccountJob
  password_reset :
      (email reset_link : String) (tenant : Option String) (origin : Option String) → AccountJob

pub record AccountQueue (S : Type 0) : Type 0 where
  pub enqueue : String → AccountJob → Action S (Unit {0})
