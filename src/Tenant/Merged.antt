-- ===== src/Tenant/Merged.antt =====
-- What an update of a tenant keeps: core/application/tenant/update-tenant.use-case.ts.
use mathlib.Core.Option
use api_neutra_v.Prelude.{
  ◌≡◌, inl, inr, refl, ap, sym, ◌∙◌, true, false, String, Option, none, some, List, [], ◌∷◌,
  or_else, or_default, str_eq, str_eq_iff, truthy, Option-cases, Bool-cases, arith, if◌then◌else◌,
}
use api_neutra_v.Runtime.{ok, outcome, answer, UseCaseResult}
use api_neutra_v.Team.{named}
use api_neutra_v.Tenant.{Tenant, TenantConfig, TenantChanges, TenantRepository, lookup, features_of}
use api_neutra_v.Tenant.Update.{put, spread, merge_config, empty_config, check_slug, update_tenant}

lookup-put :
    {A : Type 0} (key k : String) (v : A) (xs : List (String × A))
    → lookup k (put key v xs) ≡ (if str_eq key k then some v else lookup k xs)
lookup-put key k v [] = elim (Bool-cases (str_eq key k)) [
  | inl e ↦ ground (arith, e)
  | inr e ↦ ground (arith, e)
]
lookup-put key k v ((j, w) ∷ rest) = elim (Bool-cases (str_eq j key)) [
  | inl e ↦
      let same : str_eq j k ≡ str_eq key k = ap (λ x. str_eq x k) ((str_eq_iff j key).0 e) in
      elim (Bool-cases (str_eq key k)) [
        | inl f ↦ ground (arith, e, f, same)
        | inr f ↦ ground (arith, e, f, same)
      ]
  | inr e ↦
      let step = lookup-put key k v rest in
      elim (Bool-cases (str_eq j k)) [
        | inr f ↦ ground (arith, e, f, step)
        | inl f ↦
            let apart : str_eq key k ≡ false = elim (Bool-cases (str_eq key k)) [
              | inr g ↦ g
              | inl g ↦ absurd (
                  ground (
                    arith,
                    e,
                    (str_eq_iff j key).1 ((str_eq_iff j k).0 f ∙ sym ((str_eq_iff key k).0 g)),
                  ))
            ] in
            ground (arith, e, f, apart)
      ]
]

-- The value that the last entry with the key gives.
abbrev pub last_of : {A : Type 0} → String → List (String × A) → Option A
last_of k [] = none
last_of k ((j, v) ∷ rest) = or_else (last_of k rest) (if str_eq j k then some v else none)

-- A spread gives a key its new value, and keeps the old one of a key that is not new.
pub lookup-spread :
    {A : Type 0} (k : String) (old new : List (String × A))
    → lookup k (spread old new) ≡ or_else (last_of k new) (lookup k old)
lookup-spread k old [] = refl
lookup-spread k old ((j, v) ∷ rest) =
    let step = lookup-spread k (put j v old) rest in
    let placed = lookup-put j k v old in
    elim (Option-cases (last_of k rest)) [
      | inr (w, e) ↦ ground (arith, step, e)
      | inl e ↦ elim (Bool-cases (str_eq j k)) [
        | inl f ↦ ground (arith, step, placed, e, f)
        | inr f ↦ ground (arith, step, placed, e, f)
      ]
    ]

some_features : (c : TenantConfig) → features_of (some c) ≡ or_default c.features []
some_features c = elim (Option-cases c.features) [ inl e ↦ rw e refl | inr (fs, e) ↦ rw e refl ]

features-merge :
    (old : Option TenantConfig) (new : TenantConfig)
    → features_of (some (merge_config (or_default old empty_config) new))
      ≡ spread (features_of old) (features_of (some new))
features-merge none new = ap (spread []) (sym (some_features new))
features-merge (some old) new =
    ap (λ fs. spread fs (or_default new.features [])) (sym (some_features old))
    ∙ ap (spread (features_of (some old))) (sym (some_features new))

module _ {S : Type 0} (tenants : TenantRepository S) where
  -- What a passed check of the new slug means.
  checked :
      (current slug : String) (o : Option String) (s s₁ : S)
      → check_slug tenants current o s ≡ (ok tt, s₁)
      → (s₁ ≡ s)
        × (o ≡ some slug → str_eq slug current ≡ false → tenants.find_by_slug slug s ≡ ok none)
  checked current slug none s s₁ h = (ground (arith, h), λ e. absurd (ground (arith, e)))
  checked current slug (some given) s s₁ h = elim (Bool-cases (str_eq given current)) [
    | inl same ↦ (
      ground (arith, same, h),
      λ e apart. absurd (ground (arith, same, apart, ap (Option.map (λ x. str_eq x current)) e)),
    )
    | inr differs ↦ elim (answer (tenants.find_by_slug given s)) [
      | inr (e, failed) ↦ absurd (ground (arith, differs, failed, h))
      | inl (some t, taken) ↦ absurd (ground (arith, differs, taken, h))
      | inl (none, free) ↦ (
        ground (arith, differs, free, h),
        λ e apart. ap (λ x. tenants.find_by_slug x s) (sym (ap (λ o. or_default o given) e)) ∙ free,
      )
    ]
  ]

  -- An update that returns found the tenant, and no other tenant has its new slug. What it writes as
  -- features gives each named feature its new value and keeps all others.
  pub update_tenant_merges :
      (id : String) (d : TenantChanges) (new : TenantConfig) (s s' : S) (r : UseCaseResult Tenant)
      → d.config ≡ some new
      → update_tenant tenants id d s ≡ (ok r, s')
      → (old : Tenant) × (tenants.find_by_id id s ≡ ok (some old))
        × ((slug : String)
            → d.slug ≡ some slug
            → truthy slug ≡ true
            → str_eq slug old.slug ≡ false
            → tenants.find_by_slug slug s ≡ ok none)
        × (config : TenantConfig) × (t : Tenant) × (tenants.update id
              (record d { config = some config })
              s
            ≡ (ok t, s'))
        × ((k : String)
            → lookup k (features_of (some config))
              ≡ or_else (last_of k (features_of (some new))) (lookup k (features_of old.config)))
  unfolding update_tenant
  update_tenant_merges id d new s s' r given h = elim (answer (tenants.find_by_id id s)) [
    | inr (e, failed) ↦ absurd (ground (arith, failed, h))
    | inl (none, nothing) ↦ absurd (ground (arith, nothing, h))
    | inl (some old, found) ↦
        let config : TenantConfig = merge_config (or_default old.config empty_config) new in
        elim (outcome (check_slug tenants old.slug (named d.slug) s)) [
          | inr (e, s₁, failed) ↦ absurd (ground (arith, found, failed, h))
          | inl (u, s₁, passed) ↦
              let (still, _) = checked old.slug "" (named d.slug) s s₁ passed in
              elim (outcome (tenants.update id (record d { config = some config }) s)) [
                | inr (e, s₂, failed) ↦
                    absurd (ground (arith, given, found, passed, still, failed, h))
                | inl (t, s₂, wrote) ↦ (
                  old,
                  found,
                  λ slug renamed filled.
                      (checked old.slug slug (named d.slug) s s₁ passed).1
                        (ground (arith, renamed, filled)),
                  config,
                  t,
                  ground (arith, given, found, passed, still, wrote, h),
                  λ k.
                      ap (lookup k) (features-merge old.config new)
                      ∙ lookup-spread k (features_of old.config) (features_of (some new)),
                )
              ]
        ]
  ]
