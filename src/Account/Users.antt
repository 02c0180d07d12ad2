-- ===== src/Account/Users.antt =====
-- core/application/users: the use cases that read and change users.
use api_neutra_v.Prelude.{
  ℕ, Bool, true, false, not, ◌&&◌, String, Option, none, some, List, truthy, present, if◌then◌else◌,
}
use api_neutra_v.Errors.{entity_not_found_error}
use api_neutra_v.Runtime.{Action, ◌>>=◌, ◌>>◌, pure, query, or_throw, UseCaseResult, success_of}
use api_neutra_v.Access.{User}
use api_neutra_v.Team.{RoleRepository}
use api_neutra_v.Account.{
  UserCreateData, UserChanges, SummaryStats, AccountRepository, no_options, with_role_only,
}
use api_neutra_v.Account.Register.{user_role, without_password}
use api_neutra_v.Account.Social.{in_tenant}

module _ {S : Type 0} (users : AccountRepository S) where
  abbrev pub enter :
      RoleRepository S
      → (String → String → Action S (Unit {0}))
      → Option String
      → User
      → Action S (Unit {0})
  enter roles create_cart none u s = pure tt s
  enter roles create_cart (some tenant) u s = elim (truthy tenant) [
    | false ↦ pure tt s
    | true ↦
        (do
          role ← query (roles.find_by_name tenant user_role)
          elim role [ none ↦ pure tt | some r ↦ users.add_tenant u.id tenant r.id ]
          create_cart tenant u.id)
          s
  ]

  -- The password is stored as it was given.
  unfoldable pub create_user :
      RoleRepository S
      → (String → String → Action S (Unit {0}))
      → Option String
      → UserCreateData
      → Action S (UseCaseResult (Bool × User))
  create_user roles create_cart tenant d = do
    user ← users.create d
    enter roles create_cart tenant user
    pure (success_of (some (true, user)) "User created")

  unfoldable pub update_user : String → UserChanges → Action S (UseCaseResult User)
  update_user id d = do
    existing ← query (users.find_by_id id no_options)
    or_throw existing (entity_not_found_error "User" id)
    updated ← users.update id d
    pure (success_of (some updated) "User updated successfully")

  unfoldable pub delete_user : String → Action S (UseCaseResult (Unit {0}))
  delete_user id = do
    existing ← query (users.find_by_id id no_options)
    or_throw existing (entity_not_found_error "User" id)
    users.delete id
    pure (success_of none "User deleted successfully")

  abbrev visible : Option String → User → Bool
  visible none u = true
  visible (some tenant) u = if truthy tenant then in_tenant tenant u else true

  abbrev seen : Option String → Option User → UseCaseResult User
  seen tenant none = success_of none ""
  seen tenant (some u) =
      if visible tenant u
      then success_of (some u) ""
      else success_of none "User not found in this tenant"

  unfoldable pub get_user_by_id : Option String → String → Action S (UseCaseResult User)
  get_user_by_id tenant id = do
    found ← query (users.find_by_id id with_role_only)
    pure (seen tenant found)

  abbrev shown : Bool → User → User
  shown include u = if not include && present u.password then without_password u else u

  abbrev seen_by_email : Option String → Bool → Option User → UseCaseResult User
  seen_by_email tenant include none = success_of none ""
  seen_by_email tenant include (some u) =
      if visible tenant u
      then success_of (some (shown include u)) ""
      else success_of none "User not found in this tenant"

  unfoldable pub get_user_by_email : Option String → String → Bool → Action S (UseCaseResult User)
  get_user_by_email tenant email include = do
    found ← query (users.find_by_email email with_role_only)
    pure (seen_by_email tenant include found)

  abbrev pub get_all_users : Option String → Action S (UseCaseResult (List User))
  get_all_users tenant = do found ← query (users.find_all tenant); pure (success_of (some found) "")

  abbrev pub get_user_stats : Option String → Action S (UseCaseResult (List (String × ℕ)))
  get_user_stats tenant = do
    stats ← query (users.get_users_stats tenant)
    pure (success_of (some stats) "Se realiza la obtencion de las ultimos usuarios creados.")

  abbrev pub get_users_summary_stats : Option String → Action S (UseCaseResult SummaryStats)
  get_users_summary_stats tenant = do
    stats ← query (users.get_summary_stats tenant)
    pure (success_of (some stats) "User summary statistics retrieved successfully")
