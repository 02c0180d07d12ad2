-- ===== src/Access.antt =====
-- Who may do what: core/entities (user, role), core/domain/auth.types.ts, and the interfaces that
-- signing in and the guards of the routes use.
pub mod Guards
pub mod Granted
pub mod Session
pub mod SignedIn
pub mod Authenticate
pub mod Admitted
pub mod Features
pub mod Enabled
use api_neutra_v.Prelude.{Bool, true, false, ◌&&◌, String, Option, none, some, List, str_eq, map}
use api_neutra_v.Prelude.Int.{ℤ}
use api_neutra_v.Prelude.{ℕ}
use api_neutra_v.Runtime.{Result, Action, Time}

pub record Permission : Type 0 where
  pub id : String
  pub name : String
  pub description : Option String
  pub active : Bool

pub record Role : Type 0 where
  pub id : String
  pub name : String
  pub description : Option String
  pub level : ℤ
  pub active : Bool
  pub permissions : Option (List Permission)

pub record TenantRef : Type 0 where
  pub id : String
  pub name : String
  pub slug : String

-- The membership of a user in a tenant.
pub record UserTenant : Type 0 where
  pub id : String
  pub user_id : String
  pub tenant_id : String
  pub role_id : String
  pub role : Option Role
  pub tenant : Option TenantRef

-- An absent list of memberships is the empty one.
pub record User : Type 0 where
  pub id : String
  pub name : String
  pub email : String
  pub password : Option String
  pub profile_pic : Option String
  pub phone : Option String
  pub push_token : Option String
  pub active : Bool
  pub google_id : Option String
  pub facebook_id : Option String
  pub twitter_id : Option String
  pub github_id : Option String
  pub tenants : List UserTenant
  pub tenant : Option TenantRef
  pub role : Option Role
  pub reset_password_token : Option String
  pub reset_password_expires : Option Time

-- The role in a token, and the role of a request, which has permissions too.
pub record TokenRole : Type 0 where
  pub id : String
  pub name : String
  pub level : ℤ

pub record JwtPayload : Type 0 where
  pub id : String
  pub email : String
  pub name : String
  pub role : TokenRole
  pub tenant_id : Option String

pub record RequestRole : Type 0 where
  pub id : String
  pub name : String
  pub level : ℤ
  pub permissions : List String

pub record AuthenticatedUser : Type 0 where
  pub id : String
  pub email : String
  pub name : String
  pub role : RequestRole
  pub tenant_id : Option String

abbrev pub super_admin : String
super_admin = "SUPER_ADMIN"

abbrev pub superadmin_slug : String
superadmin_slug = "superadmin"

pub record UserRepository (S : Type 0) : Type 0 where
  pub find_by_email : String → S → Result (Option User)
  pub find_by_id : String → S → Result (Option User)
  pub add_tenant : String → String → String → Action S (Unit {0})

-- The cache of lists of texts: what is stored is their JSON.
pub record CacheProvider (S : Type 0) : Type 0 where
  pub get : String → S → Result (Option (List String))
  pub set : String → List String → ℕ → Action S (Unit {0})
  pub del : String → Action S (Unit {0})

pub record PasswordHasher : Type 0 where
  pub hash : String → Result String
  pub compare : String → String → Result Bool

pub record TokenGenerator : Type 0 where
  pub generate : JwtPayload → String
  pub verify : String → Result JwtPayload
