-- ===== src/Tests/Features.antt =====
-- The feature middleware: runs over a cache of one entry, and the theorems at inputs.
use api_neutra_v.Prelude.{false, ◌≡◌, refl, String, Option, none, some, List, [], ◌∷◌}
use api_neutra_v.Runtime.{ok, success_of}
use api_neutra_v.Access.{CacheProvider}
use api_neutra_v.Access.Features.{
  passed, disabled, FeatureRepository, require_feature, update_tenant_features,
  resolve_super_admin_tenant,
}
use api_neutra_v.Access.Enabled.{DecidesBy, update_tenant_features_stale}

abbrev Entry : Type 0
Entry = Option (List String)

abbrev cache : CacheProvider Entry
cache = record {
  get = λ key s. ok s;
  set = λ key v ttl s. (ok tt, some v);
  del = λ key s. (ok tt, none);
}

abbrev features : FeatureRepository Entry
features = record {
  find_enabled_feature_keys = λ tenant s. ok ("BOOKING" ∷ []);
  update_tenant_features = λ tenant changes s. (ok tt, s);
}

abbrev booking : List String
booking = "BOOKING" ∷ []

passes : require_feature features cache "BOOKING" (some "t1") none ≡ (ok passed, some booking)
unfolding require_feature
passes = refl

refused :
    require_feature features cache "ORDERS" (some "t1") (some booking)
    ≡ (ok (disabled "ORDERS"), some booking)
unfolding require_feature
refused = refl

updated :
    update_tenant_features features cache "t1" (("BOOKING", false) ∷ []) (some booking)
    ≡ (ok (success_of none "Features updated successfully"), some booking)
unfolding update_tenant_features
updated = refl

update_tenant_features_stale_example :
    DecidesBy "BOOKING" booking
      (require_feature features cache "BOOKING" (some "t1") (some booking)).0
update_tenant_features_stale_example =
    update_tenant_features_stale features cache "BOOKING" "t1" (("BOOKING", false) ∷ []) booking
      (some booking) (some booking) (success_of none "Features updated successfully") refl refl refl
      updated

stays : resolve_super_admin_tenant none (some "all") (some "t1") ≡ ok (some "t1")
unfolding resolve_super_admin_tenant
stays = refl
