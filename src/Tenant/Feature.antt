-- ===== src/Tenant/Feature.antt =====
-- Features: core/application/feature and infrastructure/database/prisma/feature.prisma-repository.ts.
use mathlib.Core.Option
use api_neutra_v.Prelude.{
  Bool, true, false, not, ◌||◌, String, Option, none, some, List, [], ◌∷◌, map, str_eq, is_some,
  is_empty, truthy, or_default,
}
use api_neutra_v.Errors.{
  Thrown, validation_as, duplicate_entity_error, entity_not_found_error, not_found_handler,
  duplicate_handler,
}
use api_neutra_v.Runtime.{
  Result, Action, ◌>>=◌, ◌>>◌, pure, query, throw_if, or_throw, when, rethrow, returns, ask,
  UseCaseResult, success_of, Time,
}
use api_neutra_v.Team.{named}
use api_neutra_v.Tenant.Update.{put}

-- A price is of a type of numbers; zero is an argument.
pub record Feature (N : Type 0) : Type 0 where
  pub id : String
  pub key : String
  pub name : String
  pub description : Option String
  pub category : Option String
  pub price : N
  pub created_at : Option Time

pub record FeatureCreateData (N : Type 0) : Type 0 where
  pub key : String
  pub name : String
  pub description : Option String
  pub category : Option String
  pub price : Option N

pub record FeatureChanges (N : Type 0) : Type 0 where
  pub key : Option String
  pub name : Option String
  pub description : Option String
  pub category : Option String
  pub price : Option N

pub record FeatureStore (S N : Type 0) : Type 0 where
  pub find_all : S → Result (List (Feature N))
  pub find_by_id : String → S → Result (Option (Feature N))
  pub find_by_key : String → S → Result (Option (Feature N))
  pub create : FeatureCreateData N → Action S (Feature N)
  pub update : String → FeatureChanges N → Action S (Feature N)
  pub delete : String → Action S (Unit {0})
  pub get_tenant_feature_status : String → S → Result (List (String × Bool))
  pub update_tenant_features : String → List (String × Bool) → Action S (Unit {0})
  pub find_enabled_feature_keys : String → S → Result (List String)

module _ {S N : Type 0} (features : FeatureStore S N) where
  unfoldable pub create_feature : FeatureCreateData N → Action S (UseCaseResult (Feature N))
  create_feature d = do
    throw_if (not (truthy d.key) || not (truthy d.name))
        (validation_as "Key and Name are required" "MISSING_REQUIRED_FIELDS")
    existing ← query (features.find_by_key d.key)
    throw_if (is_some existing) (duplicate_entity_error "Feature" "key" d.key)
    feature ← features.create d
    pure (success_of (some feature) "Feature created successfully")

  unfoldable pub delete_feature : String → Action S (UseCaseResult (Unit {0}))
  delete_feature id = do
    existing ← query (features.find_by_id id)
    or_throw existing (entity_not_found_error "Feature" id)
    features.delete id
    pure (success_of none "Feature deleted successfully")

  abbrev get_features : Action S (UseCaseResult (List (Feature N)))
  get_features = do
    found ← query features.find_all
    pure (success_of (some found) "Features retrieved successfully")

  abbrev get_tenant_features : String → Action S (UseCaseResult (List (String × Bool)))
  get_tenant_features tenant = do
    found ← query (features.get_tenant_feature_status tenant)
    pure (success_of (some found) "Tenant features retrieved successfully")

  abbrev check_key : String → Option String → Action S (Unit {0})
  check_key current none s = pure tt s
  check_key current (some key) s = elim (str_eq key current) [
    | true ↦ pure tt s
    | false ↦
        (do
          collision ← query (features.find_by_key key)
          throw_if (is_some collision) (duplicate_entity_error "Feature" "key" key))
          s
  ]

  unfoldable pub update_feature : String → FeatureChanges N → Action S (UseCaseResult (Feature N))
  update_feature id d = do
    found ← query (features.find_by_id id)
    existing ← or_throw found (entity_not_found_error "Feature" id)
    check_key existing.key (named d.key)
    feature ← features.update id d
    pure (success_of (some feature) "Feature updated successfully")

pub record FeatureRow (N : Type 0) : Type 0 where
  pub id : String
  pub key : String
  pub name : String
  pub description : Option String
  pub category : Option String
  pub price : N
  pub created_at : Time

-- A feature of a tenant, with its key.
pub record TenantFeatureRow : Type 0 where
  pub key : String
  pub enabled : Bool

pub record FeatureClient (DB N : Type 0) : Type 0 where
  pub find_many : DB → Result (List (FeatureRow N))
  pub find_id : String → DB → Result (Option (FeatureRow N))
  pub find_key : String → DB → Result (Option (FeatureRow N))
  pub create_feature : FeatureCreateData N → Action DB (FeatureRow N)
  pub update_feature : String → FeatureChanges N → Action DB (FeatureRow N)
  pub delete_feature : String → Action DB (FeatureRow N)
  pub find_tenant_features : String → DB → Result (List TenantFeatureRow)
  pub find_enabled : String → DB → Result (List TenantFeatureRow)
  pub upsert_tenant_feature : String → String → Bool → Action DB (Unit {0})
  pub transaction : Action DB (Unit {0}) → Action DB (Unit {0})

abbrev pub map_feature : {N : Type 0} → FeatureRow N → Feature N
map_feature r = record {
  id = r.id;
  key = r.key;
  name = r.name;
  description = named r.description;
  category = named r.category;
  price = r.price;
  created_at = some r.created_at;
}

-- `statusMap[key] = enabled` for each row in turn.
abbrev status_map : List (String × Bool) → List TenantFeatureRow → List (String × Bool)
status_map status [] = status
status_map status (r ∷ rows) = status_map (put r.key r.enabled status) rows

abbrev feature_handler : String → Option String → Thrown → Thrown
feature_handler id key e =
    duplicate_handler "Feature" "key" (or_default key "") (not_found_handler "Feature" id e)

module _ {DB N : Type 0} (client : FeatureClient DB N) (nought : N) where
  unfoldable pub create : FeatureCreateData N → Action DB (Feature N)
  create d = rethrow (duplicate_handler "Feature" "key" d.key) (
      returns map_feature
        (client.create_feature (record d { price = some (or_default d.price nought) })))

  unfoldable pub update : String → FeatureChanges N → Action DB (Feature N)
  update id d =
      rethrow (feature_handler id d.key) (returns map_feature (client.update_feature id d))

  unfoldable pub delete : String → Action DB (Unit {0})
  delete id =
      rethrow (not_found_handler "Feature" id) (returns (λ _. tt) (client.delete_feature id))

  unfoldable pub get_tenant_feature_status : String → DB → Result (List (String × Bool))
  get_tenant_feature_status tenant db = ask (status_map []) (client.find_tenant_features tenant db)

  unfoldable pub upsert_each : String → List (String × Bool) → Action DB (Unit {0})
  upsert_each tenant [] db = pure tt db
  upsert_each tenant ((id, on) ∷ rest) db =
      (client.upsert_tenant_feature tenant id on >>= λ _. upsert_each tenant rest) db

  unfoldable pub update_tenant_features : String → List (String × Bool) → Action DB (Unit {0})
  update_tenant_features tenant changes =
      when (not (is_empty changes)) (client.transaction (upsert_each tenant changes))

  abbrev pub feature_repository : FeatureStore DB N
  feature_repository = record {
    find_all = λ db. ask (map map_feature) (client.find_many db);
    find_by_id = λ id db. ask (Option.map map_feature) (client.find_id id db);
    find_by_key = λ key db. ask (Option.map map_feature) (client.find_key key db);
    create = create;
    update = update;
    delete = delete;
    get_tenant_feature_status = get_tenant_feature_status;
    update_tenant_features = update_tenant_features;
    find_enabled_feature_keys = λ tenant db. ask (map (λ r. r.key)) (client.find_enabled tenant db);
  }
