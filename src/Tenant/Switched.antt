-- ===== src/Tenant/Switched.antt =====
-- The features of a tenant after an update: infrastructure/database/prisma/feature.prisma-repository.ts.
use api_neutra_v.Prelude.{
  ◌≡◌, ◌≢◌, inl, inr, ap, sym, ◌∙◌, subst, Bool, String, Option, some, List, [], ◌∷◌, or_else,
  str_eq, str_eq_iff, List-cases, Option-cases, Bool-cases, arith,
}
use api_neutra_v.Errors.{Thrown}
use api_neutra_v.Runtime.{ok, err, outcome, Action}
use api_neutra_v.Tenant.Feature.{FeatureClient, upsert_each, update_tenant_features}
use api_neutra_v.Tenant.Merged.{last_of}

-- `status` reads whether a tenant has a feature, if that was ever set.
pub record IsFeatureClient {DB N : Type 0} (client : FeatureClient DB N)
    (status : String → String → DB → Option Bool) : Type 0 where
  pub upsert_lem :
      (tenant id : String) (on : Bool) (db db' : DB)
      → client.upsert_tenant_feature tenant id on db ≡ (ok tt, db')
      → status tenant id db' ≡ some on
  pub others_lem :
      (tenant id k : String) (on : Bool) (db db' : DB)
      → k ≢ id
      → client.upsert_tenant_feature tenant id on db ≡ (ok tt, db')
      → status tenant k db' ≡ status tenant k db
  pub commit_lem :
      (m : Action DB (Unit {0})) (db db' : DB)
      → client.transaction m db ≡ (ok tt, db')
      → m db ≡ (ok tt, db')
  pub rollback_lem :
      (m : Action DB (Unit {0})) (e : Thrown) (db db' : DB)
      → client.transaction m db ≡ (err e, db')
      → db' ≡ db

module _ {DB N : Type 0} (client : FeatureClient DB N) (nought : N)
    (status : String → String → DB → Option Bool) (is : IsFeatureClient client status) where
  upsert_each_lem :
      (tenant k : String) (changes : List (String × Bool)) (db db' : DB)
      → upsert_each client nought tenant changes db ≡ (ok tt, db')
      → status tenant k db' ≡ or_else (last_of k changes) (status tenant k db)
  unfolding upsert_each
  upsert_each_lem tenant k [] db db' h = ap (status tenant k) (ground (arith, h))
  upsert_each_lem tenant k ((id, on) ∷ rest) db db' h =
      elim (outcome (client.upsert_tenant_feature tenant id on db)) [
        | inr (e, db₁, failed) ↦ absurd (ground (arith, failed, h))
        | inl (u, db₁, wrote) ↦
            let step = upsert_each_lem tenant k rest db₁ db' (ground (arith, wrote, h)) in
            elim (Option-cases (last_of k rest)) [
              | inr (v, e) ↦ ground (arith, step, e)
              | inl e ↦ elim (Bool-cases (str_eq id k)) [
                | inl f ↦
                    let set = is.upsert_lem tenant id on db db₁ wrote in
                    let same : status tenant k db₁ ≡ some on =
                      subst (λ x. status tenant x db₁ ≡ some on) ((str_eq_iff id k).0 f) set in
                    ground (arith, step, e, f, same)
                | inr f ↦
                    let kept =
                      is.others_lem tenant id k on db db₁
                        (λ g. ground (arith, f, (str_eq_iff id k).1 (sym g))) wrote in
                    ground (arith, step, e, f, kept)
              ]
            ]
      ]

  -- An update of the features of a tenant that returns gives each named feature its last value and
  -- keeps all others, and one that throws changes none.
  pub update_tenant_features_lem :
      (tenant : String) (changes : List (String × Bool)) (db : DB)
      → ((db' : DB)
          → update_tenant_features client nought tenant changes db ≡ (ok tt, db')
          → (k : String) → status tenant k db' ≡ or_else (last_of k changes) (status tenant k db))
        × ((e : Thrown) (db' : DB)
            → update_tenant_features client nought tenant changes db ≡ (err e, db')
            → db' ≡ db)
  unfolding update_tenant_features
  update_tenant_features_lem tenant changes db = elim (List-cases changes) [
    | inl bare ↦ (
      λ db' h k.
          let last : db' ≡ db = ground (arith, bare, h) in
          ap (status tenant k) last
          ∙ ap (λ c. or_else (last_of k c) (status tenant k db)) (sym bare),
      λ e db' h. absurd (ground (arith, bare, h)),
    )
    | inr (c, rest, more) ↦ (
      λ db' h k. upsert_each_lem tenant k changes db db' (
          is.commit_lem (upsert_each client nought tenant changes) db db'
            (ground (arith, more, h))),
      λ e db' h.
          is.rollback_lem (upsert_each client nought tenant changes) e db db'
            (ground (arith, more, h)),
    )
  ]
