-- ===== src/Tests/Roles.antt =====
-- Roles: an update that empties the cache, at an input.
use api_neutra_v.Prelude.{
  ◌≡◌, refl, ap, inl, inr, true, false, String, Option, none, some, List, [], ◌∷◌, All, str_eq,
  Bool-cases, arith,
}
use api_neutra_v.Prelude.Int.{pos}
use api_neutra_v.Runtime.{ok, ok-injective, success_of}
use api_neutra_v.Access.{Role, User, CacheProvider}
use api_neutra_v.Account.{AccountRepository}
use api_neutra_v.Roles.{RoleStore, RoleUpdateData, update_role, forget}
use api_neutra_v.Roles.Changed.{IsForgetting, IsForgotten, update_role_forgets}
use api_neutra_v.Tests.People.{person, no_accounts, no_roles}

-- The keys in the cache.
abbrev Keys : Type 0
Keys = List String

abbrev held : String → Keys → Option (List String)
held key [] = none
held key (k ∷ ks) = elim (str_eq k key) [ true ↦ some [] | false ↦ held key ks ]

abbrev dropped : String → Keys → Keys
dropped key [] = []
dropped key (k ∷ ks) = elim (str_eq k key) [ true ↦ dropped key ks | false ↦ k ∷ dropped key ks ]

abbrev cache : CacheProvider Keys
cache = record {
  get = λ key s. ok (held key s);
  set = λ key v ttl s. (ok tt, key ∷ s);
  del = λ key s. (ok tt, dropped key s);
}

held-dropped : (key : String) (s : Keys) → held key (dropped key s) ≡ none
held-dropped key [] = refl
held-dropped key (k ∷ ks) =
    let step = held-dropped key ks in
    elim (Bool-cases (str_eq k key)) [
      | inl e ↦ ground (arith, e, step)
      | inr e ↦ ground (arith, e, step)
    ]

others_dropped : (key k : String) (s : Keys) → held k s ≡ none → held k (dropped key s) ≡ none
others_dropped key k [] gone = refl
others_dropped key k (j ∷ js) gone = elim (Bool-cases (str_eq j k)) [
  | inl e ↦ absurd (ground (arith, e, gone))
  | inr e ↦
      let step = others_dropped key k js (ground (arith, e, gone)) in
      elim (Bool-cases (str_eq j key)) [
        | inl f ↦ ground (arith, e, f, step)
        | inr f ↦ ground (arith, e, f, step)
      ]
]

cache-IsForgetting : IsForgetting cache
cache-IsForgetting = record {
  del_lem = λ key s. ap ok (held-dropped key s);
  others = λ key k s gone. ap ok (others_dropped key k s (ok-injective gone));
}

abbrev clerk : Role
clerk = record {
  id = "r3";
  name = "CLERK";
  description = none;
  level = pos 2;
  active = true;
  permissions = none;
}

abbrev roles : RoleStore Keys
roles = record no_roles {
  find_by_id = λ tenant id s. ok (some clerk);
  create = λ tenant d s. (ok (record clerk { name = d.name }), s);
  update = λ tenant id d s. (ok clerk, s);
}

abbrev users : AccountRepository Keys
users = record no_accounts {
  find_by_role_id =
      λ tenant role s. ok (person "u1" "Eva" "eva@shop" ∷ person "u2" "Bob" "bob@shop" ∷ []);
}

abbrev fewer : RoleUpdateData
fewer = record {
  name = none;
  description = none;
  level = none;
  active = none;
  permission_ids = some [];
}

abbrev stale : Keys
stale = "user:permissions:u1:t1" ∷ "user:permissions:u9:t1" ∷ []

run :
    update_role roles users cache (some "t1") "r3" fewer stale
    ≡ (ok (success_of (some clerk) "Role updated successfully"), "user:permissions:u9:t1" ∷ [])
unfolding update_role forget
run = refl

update_role_forgets_example :
    (new : Role) × (s₁ : Keys) × (roles.update (some "t1") "r3" fewer stale ≡ (ok new, s₁))
    × (success_of (some clerk) "Role updated successfully"
        ≡ success_of (some new) "Role updated successfully")
    × (holders : List User) × (users.find_by_role_id "t1" "r3" s₁ ≡ ok holders)
    × All (IsForgotten roles cache "t1" ("user:permissions:u9:t1" ∷ [])) holders
update_role_forgets_example =
    update_role_forgets roles users cache cache-IsForgetting "t1" "r3" fewer stale
      ("user:permissions:u9:t1" ∷ []) (success_of (some clerk) "Role updated successfully") refl run
