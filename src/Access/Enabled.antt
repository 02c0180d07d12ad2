-- ===== src/Access/Enabled.antt =====
-- Which requests the feature middleware lets through.
use api_neutra_v.Prelude.{
  Bool, true, ◌≡◌, ◌↔◌, inl, inr, ap, sym, ◌∙◌, String, Option, none, some, List, Member, includes,
  truthy, present, ◌≢◌, str_eq_iff, if◌then◌else◌, Bool-cases, arith,
}
use api_neutra_v.Runtime.{Result, ok, UseCaseResult, outcome}
use api_neutra_v.Access.{CacheProvider, AuthenticatedUser, super_admin}
use api_neutra_v.Access.Guards.{is_super_admin}
use api_neutra_v.Access.Granted.{includes_iff}
use api_neutra_v.Access.Features.{
  Outcome, passed, FeatureRepository, feature_key, disabled, require_feature,
  update_tenant_features, resolve_super_admin_tenant,
}

-- The request passes exactly when the feature is one of the keys, and is else answered with 403.
abbrev pub DecidesBy : String → List String → Result Outcome → Type 0
DecidesBy feature keys r =
    ((r ≡ ok passed) ↔ Member feature keys)
    × (r ≡ ok (if includes keys feature then passed else disabled feature))

module _ {S : Type 0} (features : FeatureRepository S) (cache : CacheProvider S) where
  decides_lem :
      (feature : String) (keys : List String) (r : Result Outcome)
      → r ≡ ok (if includes keys feature then passed else disabled feature)
      → DecidesBy feature keys r
  decides_lem feature keys r h = elim (Bool-cases (includes keys feature)) [
    | inl e ↦ ((λ x. (includes_iff keys feature).0 e, λ m. ground (arith, h, e)), h)
    | inr e ↦ (
      (
        λ x. absurd (ground (arith, h, e, x)),
        λ m. absurd (ground (arith, e, (includes_iff keys feature).1 m)),
      ),
      h,
    )
  ]

  -- With a cached list of features the middleware decides by that list and writes nothing.
  pub require_feature_cached :
      (feature tenant : String) (keys : List String) (s : S)
      → truthy tenant ≡ true
      → cache.get (feature_key tenant) s ≡ ok (some keys)
      → DecidesBy feature keys (require_feature features cache feature (some tenant) s).0
        × ((require_feature features cache feature (some tenant) s).1 ≡ s)
  unfolding require_feature
  require_feature_cached feature tenant keys s filled hit =
      (decides_lem feature keys _ (ground (arith, filled, hit)), ground (arith, filled, hit))

  -- Without one, it decides by the features that the tenant has, and caches them: where the cache
  -- keeps what is stored, the next request is decided by the same list.
  pub require_feature_loaded :
      (feature tenant : String) (keys : List String) (s s₁ : S)
      → truthy tenant ≡ true
      → cache.get (feature_key tenant) s ≡ ok none
      → features.find_enabled_feature_keys tenant s ≡ ok keys
      → cache.set (feature_key tenant) keys 3600 s ≡ (ok tt, s₁)
      → cache.get (feature_key tenant) s₁ ≡ ok (some keys)
      → DecidesBy feature keys (require_feature features cache feature (some tenant) s).0
        × ((next : String)
            → DecidesBy next keys (require_feature features cache next (some tenant) s₁).0)
  unfolding require_feature
  require_feature_loaded feature tenant keys s s₁ filled miss found stored kept = (
    decides_lem feature keys _ (ground (arith, filled, miss, found, stored)),
    λ next. decides_lem next keys _ (ground (arith, filled, kept)),
  )

  -- A change of the features of a tenant does not reach the cache: where the repository does not
  -- write it, requests are decided by the old list while the entry lasts.
  pub update_tenant_features_stale :
      (feature tenant : String) (changes : List (String × Bool)) (keys : List String) (s s' : S)
      (r : UseCaseResult (Unit {0}))
      → truthy tenant ≡ true
      → cache.get (feature_key tenant) s ≡ ok (some keys)
      → cache.get (feature_key tenant) (features.update_tenant_features tenant changes s).1
        ≡ cache.get (feature_key tenant) s
      → update_tenant_features features cache tenant changes s ≡ (ok r, s')
      → DecidesBy feature keys (require_feature features cache feature (some tenant) s').0
  unfolding update_tenant_features
  update_tenant_features_stale feature tenant changes keys s s' r filled hit leaves h =
      elim (outcome (features.update_tenant_features tenant changes s)) [
        | inr (e, s₁, failed) ↦ absurd (ground (arith, failed, h))
        | inl (u, s₁, made) ↦
            let same : s' ≡ s₁ = ground (arith, made, h) in
            (require_feature_cached feature tenant keys s' filled (
              ap (cache.get (feature_key tenant)) (same ∙ ap (λ x. x.1) (sym made))
              ∙ leaves
              ∙ hit)).0
      ]

-- The request has no user, or one who is not the super administrator.
abbrev pub IsPlain : Option AuthenticatedUser → Type 0
IsPlain none = Unit
IsPlain (some u) = u.role.name ≢ super_admin

-- A request whose user is not the super administrator goes on only in its own tenant, which it must
-- have: what it asks for in the query makes no difference.
pub resolve_super_admin_tenant_keeps :
    (u : Option AuthenticatedUser) (queried current t : Option String)
    → IsPlain u
    → resolve_super_admin_tenant u queried current ≡ ok t
    → (t ≡ current) × (present current ≡ true)
unfolding resolve_super_admin_tenant
resolve_super_admin_tenant_keeps none queried current t plain h =
    elim (Bool-cases (present current)) [
      | inl e ↦ (ground (arith, e, h), e)
      | inr e ↦ absurd (ground (arith, e, h))
    ]
resolve_super_admin_tenant_keeps (some u) queried current t plain h =
    elim (Bool-cases (is_super_admin u)) [
      | inl super ↦ absurd (plain ((str_eq_iff u.role.name super_admin).0 super))
      | inr e ↦ elim (Bool-cases (present current)) [
        | inl p ↦ (ground (arith, e, p, h), p)
        | inr p ↦ absurd (ground (arith, e, p, h))
      ]
    ]
