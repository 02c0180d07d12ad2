-- ===== src/Access/Guards.antt =====
-- middleware/authorization.middleware.ts: `next()` is a result, `throw` is an error. A user of a
-- request has a role with permissions, as core/application/auth/resolve-authenticated-user gives it.
use api_neutra_v.Prelude.{
  Bool, not, String, Option, none, some, List, [], ◌∷◌, str_eq, includes, any, all, filter, is_text,
  is_empty, ◌<>◌, if◌then◌else◌,
}
use api_neutra_v.Prelude.Int.{ℤ, ltb_ℤ}
use api_neutra_v.Errors.{Thrown, domain, DomainError, unauthorized_error, forbidden_error}
use api_neutra_v.Runtime.{Result, ok, err}
use api_neutra_v.Access.{AuthenticatedUser, super_admin}

abbrev pub is_super_admin : AuthenticatedUser → Bool
is_super_admin u = str_eq u.role.name super_admin

-- `texts.join(", ")`
abbrev join : List String → String
join [] = ""
join (t ∷ ts) = let rest = join ts in if is_empty ts then t else t <> ", " <> rest

abbrev pub allow_if : Bool → DomainError → Result (Unit {0})
allow_if b e = if b then ok tt else err (domain e)

-- What the guards share: a user is asked for, and the super administrator passes.
abbrev pub guard :
    String → (AuthenticatedUser → Result (Unit {0})) → Option AuthenticatedUser → Result (Unit {0})
guard m check none = err (domain (unauthorized_error m))
guard m check (some u) = if is_super_admin u then ok tt else check u

unfoldable pub require_permission : String → Option AuthenticatedUser → Result (Unit {0})
require_permission p = guard "You must be logged in to access this resource" (λ u.
    allow_if (includes u.role.permissions p)
      (forbidden_error ("You need '" <> p <> "' permission to access this resource")))

unfoldable pub require_any_permission : List String → Option AuthenticatedUser → Result (Unit {0})
require_any_permission ps = guard "You must be logged in" (λ u.
    allow_if (any (includes u.role.permissions) ps)
      (forbidden_error ("You need at least one of these permissions: " <> join ps)))

unfoldable pub require_all_permissions : List String → Option AuthenticatedUser → Result (Unit {0})
require_all_permissions ps = guard "You must be logged in" (λ u.
    allow_if (all (includes u.role.permissions) ps) (
      forbidden_error (
        "You are missing required permissions: "
        <> join (filter (λ p. not (includes u.role.permissions p)) ps))))

-- `show` prints a number.
unfoldable pub require_role : (ℤ → String) → ℤ → Option AuthenticatedUser → Result (Unit {0})
require_role show least = guard "You must be logged in" (λ u.
    allow_if (not (ltb_ℤ u.role.level least)) (
      forbidden_error (
        "You need role level "
        <> show least
        <> " or higher (current: "
        <> show u.role.level
        <> ")")))

abbrev keep_domain : Thrown → Result (Unit {0})
keep_domain (domain e) = err (domain e)
keep_domain _ = err (domain (forbidden_error "Failed to verify resource ownership"))

abbrev owned : AuthenticatedUser → Result (Option String) → Result (Unit {0})
owned u (ok owner) =
    allow_if (is_text owner u.id) (forbidden_error "You can only access your own resources")
owned u (err e) = keep_domain e

-- The owner is what `getResourceOwnerId` answers; here the super administrator does not pass.
unfoldable pub require_ownership :
    Result (Option String) → Option AuthenticatedUser → Result (Unit {0})
require_ownership owner none = err (domain (unauthorized_error "You must be logged in"))
require_ownership owner (some u) = owned u owner
