-- ===== src/Account/Password.antt =====
-- core/application/auth: forgot-password and reset-password.
use api_neutra_v.Prelude.{not, ◌||◌, String, Option, none, some, List, [], ◌∷◌, truthy, ◌<>◌}
use api_neutra_v.Prelude.Int.{pos, ◌+ℤ◌}
use api_neutra_v.Errors.{validation_error, business_rule_violation_error}
use api_neutra_v.Runtime.{
  Action, ◌>>=◌, ◌>>◌, pure, query, throw_if, or_throw, Time, UseCaseResult, success_of,
}
use api_neutra_v.Access.{User, UserTenant, PasswordHasher}
use api_neutra_v.Access.Session.{first_text}
use api_neutra_v.Account.{
  UserChanges, AccountRepository, no_options, AccountJob, password_reset, AccountQueue,
}

abbrev pub no_changes : UserChanges
no_changes = record {
  name = none;
  email = none;
  password = none;
  profile_pic = none;
  phone = none;
  push_token = none;
  active = none;
  google_id = none;
  facebook_id = none;
  twitter_id = none;
  github_id = none;
  reset_password_token = none;
  reset_password_expires = none;
}

-- `AUTH_CONSTANTS.PASSWORD_RESET_EXPIRATION_MS` from now on.
abbrev pub expiry : Time → Time
expiry now = now +ℤ pos 3600000

abbrev pub issued : String → Time → UserChanges
issued token now = record no_changes {
  reset_password_token = some token;
  reset_password_expires = some (expiry now);
}

-- The token and its end are given as `undefined`.
abbrev pub new_password : String → UserChanges
new_password hash = record no_changes { password = some hash }

abbrev first_tenant : List UserTenant → Option String
first_tenant [] = none
first_tenant (ut ∷ rest) = some ut.tenant_id

abbrev reset_link : Option String → String → String → String
reset_link origin frontend token =
    (elim (first_text origin (some frontend)) [ none ↦ "" | some base ↦ base ])
    <> "/reset-password?token="
    <> token

abbrev pub link_job : String → String → Option String → Option String → User → AccountJob
link_job frontend token tenant origin user =
    password_reset user.email (reset_link origin frontend token)
      (first_text tenant (first_tenant user.tenants)) origin

abbrev pub link_sent : UseCaseResult (Unit {0})
link_sent =
    success_of none "If an account with that email exists, we have sent a password reset link."

abbrev pub password_changed : UseCaseResult (Unit {0})
password_changed = success_of none "Password has been successfully reset"

module _ {S : Type 0} (users : AccountRepository S) where
  -- The rest for a user who was found; the token is the answer of `randomBytes`.
  abbrev pub send_link :
      AccountQueue S
      → (frontend token : String) → Time
      → Option String
      → Option String
      → Option User
      → Action S (UseCaseResult (Unit {0}))
  send_link queue frontend token now tenant origin none = pure link_sent
  send_link queue frontend token now tenant origin (some user) = do
    users.update user.id (issued token now)
    queue.enqueue "notifications" (link_job frontend token tenant origin user)
    pure link_sent

  unfoldable pub forgot_password :
      AccountQueue S
      → (frontend token : String) → Time
      → Option String
      → String
      → Option String
      → Action S (UseCaseResult (Unit {0}))
  forgot_password queue frontend token now tenant email origin = do
    throw_if (not (truthy email)) (business_rule_violation_error "Email is required")
    found ← query (users.find_by_email email no_options)
    send_link queue frontend token now tenant origin found

  unfoldable pub reset_password :
      PasswordHasher → Time → String → String → Action S (UseCaseResult (Unit {0}))
  reset_password hasher now token password = do
    throw_if (not (truthy token) || not (truthy password))
        (validation_error "Token and new password are required")
    found ← query (users.find_by_reset_token token now)
    user ←
        or_throw found
          (business_rule_violation_error "Password reset token is invalid or has expired")
    hash ← query (λ _. hasher.hash password)
    users.update user.id (new_password hash)
    pure password_changed
