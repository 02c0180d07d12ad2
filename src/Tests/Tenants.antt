-- ===== src/Tests/Tenants.antt =====
-- Tenants: the creation, the middleware and the updates at inputs.
use api_neutra_v.Prelude.{
  ℕ, ◌≡◌, refl, inl, inr, sym, ◌∙◌, ap, Bool, true, false, String, Option, none, some, List, [],
  ◌∷◌, str_eq, str_eq_iff, Bool-cases, arith, if◌then◌else◌, split_on, starts_with, lower_eq, trim,
}
use api_neutra_v.Errors.{Thrown, other}
use api_neutra_v.Runtime.{outcome, Result, ok, err, Action, success_of}
use api_neutra_v.Tenant.{TenantChanges, TenantConfig, TenantRepository, lookup}
use api_neutra_v.Tenant.Feature.{FeatureClient}
use api_neutra_v.Tenant.Request.{Request, passes, request_tenant, tenant_keys, tenant_middleware}
use api_neutra_v.Tenant.Resolved.{Admits, tenant_middleware-Admits}
use api_neutra_v.Tenant.Switched.{IsFeatureClient}
use api_neutra_v.Tenant.Update.{update_tenant, empty_config}
use api_neutra_v.Tests.People.{no_tenants, shop}

abbrev Post : Type 0
Post = Option String

abbrev request : Request
request = record {
  original_url = "/api/products?page=2";
  tenant_id = none;
  tenant_slug = some "shop";
  cookie = none;
  host = some "www.neutra.ec";
}

abbrev shops : TenantRepository Post
shops = record no_tenants {
  find_by_slug = λ slug s. ok (if str_eq slug "shop" then some shop else none);
  find_by_id = λ id s. ok (some shop);
  update = λ id d s. (ok shop, s);
}

passed :
    tenant_middleware shops "production" "production" request none
    ≡ (ok (passes (some (request_tenant shop))), none)
unfolding tenant_middleware tenant_keys split_on starts_with lower_eq trim
passed = refl

tenant_middleware-Admits_example :
    (◌≡◌ {A = Post} none none)
    × Admits shops "production" "production" request none (some (request_tenant shop))
unfolding split_on starts_with lower_eq trim
tenant_middleware-Admits_example =
    tenant_middleware-Admits shops "production" "production" request none none
      (some (request_tenant shop)) refl refl passed

abbrev booking_on : TenantConfig
booking_on = record empty_config { features = some (("BOOKING", true) ∷ []) }

abbrev changes : TenantChanges
changes = record { name = none; slug = none; type = none; config = some booking_on; active = none }

updated :
    update_tenant shops "t1" changes none
    ≡ (ok (success_of (some shop) "Tenant updated successfully"), none)
unfolding update_tenant
updated = refl

-- The features that were set, the last first.
abbrev Switches : Type 0
Switches = List (String × Bool)

abbrev commit : Switches → Result (Unit {0}) × Switches → Result (Unit {0}) × Switches
commit db (ok a, db') = (ok a, db')
commit db (err e, db') = (err e, db)

abbrev features : FeatureClient Switches ℕ
features = record {
  find_many = λ db. ok [];
  find_id = λ id db. ok none;
  find_key = λ key db. ok none;
  create_feature = λ d db. (err other, db);
  update_feature = λ id d db. (err other, db);
  delete_feature = λ id db. (err other, db);
  find_tenant_features = λ tenant db. ok [];
  find_enabled = λ tenant db. ok [];
  upsert_tenant_feature = λ tenant id on db. (ok tt, (id, on) ∷ db);
  transaction = λ m db. commit db (m db);
}

abbrev status : String → String → Switches → Option Bool
status tenant id db = lookup id db

committed :
    (m : Action Switches (Unit {0})) (db db' : Switches)
    → commit db (m db) ≡ (ok tt, db')
    → m db ≡ (ok tt, db')
committed m db db' h = elim (outcome (m db)) [
  | inl (a, db₁, e) ↦ ground (arith, e, h)
  | inr (e, db₁, f) ↦ absurd (ground (arith, f, h))
]

rolled_back :
    (m : Action Switches (Unit {0})) (e : Thrown) (db db' : Switches)
    → commit db (m db) ≡ (err e, db')
    → db' ≡ db
rolled_back m e db db' h = elim (outcome (m db)) [
  | inl (a, db₁, f) ↦ absurd (ground (arith, f, h))
  | inr (x, db₁, f) ↦ ground (arith, f, h)
]

found : (id : String) (on : Bool) (db : Switches) → lookup id ((id, on) ∷ db) ≡ some on
found id on db = let same : str_eq id id ≡ true = (str_eq_iff id id).1 refl in ground (arith, same)

passed_by :
    (id k : String) (on : Bool) (db : Switches)
    → str_eq id k ≡ false
    → lookup k ((id, on) ∷ db) ≡ lookup k db
passed_by id k on db e = ground (arith, e)

features-IsFeatureClient : IsFeatureClient features status
features-IsFeatureClient = record {
  upsert_lem = λ tenant id on db db' wrote.
      ap (status tenant id) (ap (λ x. x.1) (sym wrote)) ∙ found id on db;
  others_lem = λ tenant id k on db db' apart wrote.
      ap (status tenant k) (ap (λ x. x.1) (sym wrote)) ∙ elim (Bool-cases (str_eq id k)) [
        | inl e ↦ absurd (apart (sym ((str_eq_iff id k).0 e)))
        | inr e ↦ passed_by id k on db e
      ];
  commit_lem = committed;
  rollback_lem = rolled_back;
}

abbrev on_and_off : List (String × Bool)
on_and_off = ("BOOKING", true) ∷ ("ORDERS", false) ∷ []
