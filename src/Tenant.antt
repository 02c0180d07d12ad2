-- ===== src/Tenant.antt =====
-- core/entities/tenant.entity.ts, core/repositories/tenant.repository.interface.ts and the settings
-- of notifications, which the worker reads off the configuration.
pub mod Create
pub mod Update
pub mod Prisma
pub mod Feature
pub mod Switched
pub mod Foundation
pub mod Founded
pub mod Merged
pub mod Request
pub mod Resolved
use api_neutra_v.Prelude.{
  Bool, true, false, ◌||◌, String, Option, none, some, List, str_eq, [], ◌∷◌,
}
use api_neutra_v.Runtime.{Result, Action, Time}

pub data TenantType : Type 0 where
  store booking hybrid : TenantType

pub record Branding : Type 0 where
  pub primary_color : Option String
  pub tenant_logo : Option String
  pub favicon : Option String

pub record Settings : Type 0 where
  pub support_email : Option String
  pub website_url : Option String
  pub currency : Option String
  pub language : Option String
  pub timezone : Option String

-- core/utils/notification-settings.util.ts; the events are a map from their names.
pub record NotificationChannels : Type 0 where
  pub email : Option Bool
  pub whatsapp : Option Bool
  pub push : Option Bool

pub record NotificationSettings : Type 0 where
  pub channels : Option NotificationChannels
  pub events : Option (List (String × NotificationChannels))

-- The interface does not name `notifications`; the objects have it.
pub record TenantConfig : Type 0 where
  pub branding : Option Branding
  pub settings : Option Settings
  pub features : Option (List (String × Bool))
  pub notifications : Option NotificationSettings

pub record Tenant : Type 0 where
  pub id : String
  pub name : String
  pub slug : String
  pub type : TenantType
  pub config : Option TenantConfig
  pub active : Bool
  pub created_at : Time
  pub updated_at : Time

-- `Partial<Tenant>`, of which the repositories read these.
pub record TenantChanges : Type 0 where
  pub name : Option String
  pub slug : Option String
  pub type : Option TenantType
  pub config : Option TenantConfig
  pub active : Option Bool

pub record TenantRepository (S : Type 0) : Type 0 where
  pub find_by_id : String → S → Result (Option Tenant)
  pub find_by_slug : String → S → Result (Option Tenant)
  pub find_all : S → Result (List Tenant)
  pub create : TenantChanges → Action S Tenant
  pub update : String → TenantChanges → Action S Tenant
  pub delete : String → Action S (Unit {0})

abbrev pub is_booking_type : Tenant → Bool
is_booking_type t = elim t.type [ store ↦ false | booking ↦ true | hybrid ↦ true ]

abbrev pub is_store_type : Tenant → Bool
is_store_type t = elim t.type [ store ↦ true | booking ↦ false | hybrid ↦ true ]

-- `record[key]` on an object whose keys are the names of the list.
abbrev pub lookup : {A : Type 0} → String → List (String × A) → Option A
lookup key [] = none
lookup key ((k, v) ∷ rest) = elim (str_eq k key) [ true ↦ some v | false ↦ lookup key rest ]

abbrev feature_on : Option Bool → Bool
feature_on none = false
feature_on (some on) = on

abbrev pub features_of : Option TenantConfig → List (String × Bool)
features_of none = []
features_of (some c) = elim c.features [ none ↦ [] | some fs ↦ fs ]

abbrev pub is_feature_enabled : Tenant → String → Bool
is_feature_enabled t key = feature_on (lookup key (features_of t.config))
