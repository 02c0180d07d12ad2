-- ===== src/Access/Granted.antt =====
-- Whom the guards of middleware/authorization.middleware.ts let through.
use api_neutra_v.Prelude.{
  Bool, true, ◌≡◌, ◌↔◌, ◌⊎◌, inl, inr, refl, ap, sym, String, Option, none, some, List, [], ◌∷◌,
  All, Some, Member, All-each, if◌then◌else◌, str_eq, includes, all, any, any_iff, str_eq_iff, not,
  Bool-cases, arith,
}
use api_neutra_v.Prelude.Int.{ℤ, ◌≤ℤ◌, ltb_ℤ}
use api_neutra_v.Errors.{forbidden_error}
use api_neutra_v.Errors.Http.{http_status_from_domain_error}
use api_neutra_v.Errors.Middleware.{error_middleware}
use api_neutra_v.Runtime.{Result, ok, err, Refuses}
use api_neutra_v.Access.{AuthenticatedUser, super_admin}
use api_neutra_v.Access.Guards.{
  is_super_admin, allow_if, require_permission, require_any_permission, require_all_permissions,
  require_role, require_ownership,
}

pub includes_iff : (xs : List String) (s : String) → (includes xs s ≡ true) ↔ Member s xs
includes_iff [] s = (λ h. ground (arith, h), λ m. absurd m)
includes_iff (x ∷ xs) s = elim (Bool-cases (str_eq x s)) [
  | inl e ↦ rw e (λ h. inl (sym ((str_eq_iff x s).0 e)), λ m. refl)
  | inr e ↦ rw e (
    λ h. inr ((includes_iff xs s).0 h),
    λ m. elim m [
      | inl same ↦ absurd (ground (arith, e, (str_eq_iff x s).1 (sym same)))
      | inr deep ↦ (includes_iff xs s).1 deep
    ],
  )
]

all_iff : {A : Type 0} (p : A → Bool) (xs : List A) → (all p xs ≡ true) ↔ All (λ x. p x ≡ true) xs
all_iff p [] = (λ h. tt, λ h. refl)
all_iff p (x ∷ xs) = elim (Bool-cases (p x)) [
  | inl e ↦ rw e (λ h. (refl, (all_iff p xs).0 h), λ h. (all_iff p xs).1 h.1)
  | inr e ↦ rw e (λ h. ground (arith, h), λ h. ground (arith, h.0))
]

-- The user is the super administrator, or has what the check asks for.
abbrev pub IsAllowed : AuthenticatedUser → Type 0 → Type 0
IsAllowed u P = (u.role.name ≡ super_admin) ⊎ P

-- A guard of one user lets through exactly those that are allowed, and answers 403 to the others.
abbrev pub Guards : AuthenticatedUser → Type 0 → Result (Unit {0}) → Type 0
Guards u P r = ((r ≡ ok tt) ↔ IsAllowed u P) × ((r ≡ ok tt) ⊎ Refuses 403 tt (r, tt))

guard_lem :
    (u : AuthenticatedUser) (b : Bool) (m : String) (P : Type 0)
    → (b ≡ true) ↔ P
    → Guards u P (if is_super_admin u then ok tt else allow_if b (forbidden_error m))
unfolding error_middleware http_status_from_domain_error
guard_lem u b m P same = elim (Bool-cases (is_super_admin u)) [
  | inl super ↦
      rw super ((λ h. inl ((str_eq_iff u.role.name super_admin).0 super), λ a. refl), inl refl)
  | inr plain ↦ elim (Bool-cases b) [
    | inl holds ↦ rw (plain, holds) ((λ h. inr (same.0 holds), λ a. refl), inl refl)
    | inr fails ↦
        rw (plain, fails)
          (
            (
              λ h. ground (arith, h),
              λ a. elim a [
                | inl name ↦
                    absurd (ground (arith, plain, (str_eq_iff u.role.name super_admin).1 name))
                | inr p ↦ absurd (ground (arith, fails, same.1 p))
              ],
            ),
            inr (refl, refl),
          )
  ]
]

-- `requirePermission` lets through exactly the super administrator and the users whose role has the
-- permission; the others are answered with 403.
pub require_permission-Guards :
    (p : String) (u : AuthenticatedUser)
    → Guards u (Member p u.role.permissions) (require_permission p (some u))
unfolding require_permission
require_permission-Guards p u =
    guard_lem u (includes u.role.permissions p) _ _ (includes_iff u.role.permissions p)

-- `requireAnyPermission` asks for one of the permissions of the list.
pub require_any_permission-Guards :
    (ps : List String) (u : AuthenticatedUser)
    → Guards u (Some (includes u.role.permissions) ps) (require_any_permission ps (some u))
unfolding require_any_permission
require_any_permission-Guards ps u =
    guard_lem u (any (includes u.role.permissions) ps) _ _
      (any_iff (includes u.role.permissions) ps)

-- `requireAllPermissions` lets through exactly the super administrator and the users whose role has
-- all the permissions of the list; the others are answered with 403.
pub require_all_permissions-Guards :
    (ps : List String) (u : AuthenticatedUser)
    → Guards u (All (λ p. Member p u.role.permissions) ps) (require_all_permissions ps (some u))
unfolding require_all_permissions
require_all_permissions-Guards ps u =
    let (to, from) = all_iff (includes u.role.permissions) ps in
    guard_lem u (all (includes u.role.permissions) ps) _ _ (
      λ h. All-each _ _ (λ p. (includes_iff u.role.permissions p).0) ps (to h),
      λ h. from (All-each _ _ (λ p. (includes_iff u.role.permissions p).1) ps h),
    )

-- `requireRole` lets through exactly the super administrator and the users whose role has at least
-- the level; the others are answered with 403.
pub require_role-Guards :
    (show : ℤ → String) (least : ℤ) (u : AuthenticatedUser)
    → Guards u (least ≤ℤ u.role.level) (require_role show least (some u))
unfolding require_role
require_role-Guards show least u =
    guard_lem u (not (ltb_ℤ u.role.level least)) _ _
      (λ h. ground (arith, h), λ h. ground (arith, h))

-- No guard lets a request without a user through: each answers 401.
pub guards_ask_user :
    (p : String) (ps : List String) (show : ℤ → String) (least : ℤ) (owner : Result (Option String))
    → Refuses 401 tt (require_permission p none, tt)
      × Refuses 401 tt (require_any_permission ps none, tt)
      × Refuses 401 tt (require_all_permissions ps none, tt)
      × Refuses 401 tt (require_role show least none, tt)
      × Refuses 401 tt (require_ownership owner none, tt)
unfolding require_permission require_any_permission require_all_permissions require_role
    require_ownership error_middleware http_status_from_domain_error
guards_ask_user p ps show least owner =
    ((refl, refl), (refl, refl), (refl, refl), (refl, refl), (refl, refl))

-- `requireOwnership` lets a user through exactly when the owner was found and is the user: the super
-- administrator is no exception.
pub require_ownership_iff :
    (owner : Result (Option String)) (u : AuthenticatedUser)
    → (require_ownership owner (some u) ≡ ok tt) ↔ (owner ≡ ok (some u.id))
unfolding require_ownership
require_ownership_iff (ok none) u = (λ h. ground (arith, h), λ h. ground (arith, h))
require_ownership_iff (ok (some o)) u = elim (Bool-cases (str_eq o u.id)) [
  | inl e ↦ rw e (λ h. ap (λ x. ok (some x)) ((str_eq_iff o u.id).0 e), λ h. refl)
  | inr e ↦ rw e (
    λ h. ground (arith, h),
    λ h. absurd (ground (arith, e, (str_eq_iff o u.id).1 (ground (arith, h)))),
  )
]
require_ownership_iff (err e) u = (λ h. ground (arith, h), λ h. ground (arith, h))
