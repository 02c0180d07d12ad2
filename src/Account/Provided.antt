-- ===== src/Account/Provided.antt =====
-- What signing in by a provider gives, and what reading a user shows.
use api_neutra_v.Prelude.{
  ◌≡◌, inl, inr, refl, subst, true, false, Bool, String, Option, none, some, find, truthy, present,
  or_else, Option-cases, Bool-cases, arith,
}
use api_neutra_v.Runtime.{ok, outcome, answer, UseCaseResult}
use api_neutra_v.Access.{User, UserTenant, Role, TokenGenerator}
use api_neutra_v.Access.Session.{is_login_tenant, payload}
use api_neutra_v.Team.{RoleRepository, named}
use api_neutra_v.Account.{UserChanges, AccountRepository, with_role_only}
use api_neutra_v.Account.Register.{AuthResult, without_password}
use api_neutra_v.Account.Social.{
  SocialLoginDto, social_user, join_unless, link_or_create, provider_changes, provider_field,
  first_of, in_tenant, social_login,
}
use api_neutra_v.Account.Stored.{IsAccounts, changed}
use api_neutra_v.Account.Users.{get_user_by_email}

-- A signed-in user has a membership with a role in the tenant, and the token carries it.
pub record IsSocial (tokens : TokenGenerator) (tenant : String) (r : AuthResult) : Type 0 where
  pub user : User
  pub membership : UserTenant
  pub role : Role
  pub member : find (is_login_tenant (some tenant)) user.tenants ≡ some membership
  pub has_role : membership.role ≡ some role
  pub answered : r.user ≡ without_password user
  pub token : r.token ≡ tokens.generate (payload user membership role)

abbrev signed : TokenGenerator → User → UserTenant → Role → AuthResult
signed tokens u ut role = record {
  user = without_password u;
  token = tokens.generate (payload u ut role);
}

module _ {S : Type 0} (users : AccountRepository S) where
  -- A social login that returns gives a token for a membership with a role in the tenant.
  pub social_login-IsSocial :
      (roles : RoleRepository S) (uid : String) (tokens : TokenGenerator) (tenant : String)
      (d : SocialLoginDto) (s s' : S) (r : UseCaseResult AuthResult)
      → social_login users roles uid tokens tenant d s ≡ (ok r, s')
      → (a : AuthResult) × (r.value ≡ some a) × IsSocial tokens tenant a
  unfolding social_login
  social_login-IsSocial roles uid tokens tenant d s s' r h =
      elim (Option-cases (named (first_of d.emails))) [
        | inl unnamed ↦ absurd (ground (arith, unnamed, h))
        | inr (email, mailed) ↦
            elim (answer (users.find_by_provider (provider_field d.provider) d.id s)) [
              | inr (e, failed) ↦ absurd (ground (arith, mailed, failed, h))
              | inl (o, read) ↦ elim (outcome (social_user users roles uid d email o s)) [
                | inr (e, s₁, failed) ↦ absurd (ground (arith, mailed, read, failed, h))
                | inl (u, s₁, found) ↦ elim (outcome (join_unless users roles uid tenant u s₁)) [
                  | inr (e, s₂, failed) ↦ absurd (ground (arith, mailed, read, found, failed, h))
                  | inl (w, s₂, joined) ↦
                      elim (Option-cases (find (is_login_tenant (some tenant)) w.tenants)) [
                        | inl stranger ↦
                            absurd (ground (arith, mailed, read, found, joined, stranger, h))
                        | inr (ut, member) ↦ elim (Option-cases ut.role) [
                          | inl idle ↦
                              absurd (ground (arith, mailed, read, found, joined, member, idle, h))
                          | inr (role, has) ↦ (
                            signed tokens w ut role,
                            ground (arith, mailed, read, found, joined, member, has, h),
                            record {
                              user = w;
                              membership = ut;
                              role = role;
                              member = member;
                              has_role = has;
                              answered = refl;
                              token = refl;
                            },
                          )
                        ]
                      ]
                ]
              ]
            ]
      ]

  -- Linking an account to a provider stores the id at Google, and does not store the one at Twitter.
  pub link_keeps_twitter :
      (row : Bool → String → S → Option User)
      → IsAccounts users row
      → (roles : RoleRepository S) (uid : String) (d : SocialLoginDto) (email : String) (s s' : S)
        (u v : User)
      → row false u.id s ≡ some u
      → link_or_create users roles uid d email (some u) s ≡ (ok v, s')
      → (w : User) × (row false u.id s' ≡ some w)
        × (d.provider ≡ "google" → w.google_id ≡ some d.id)
        × (d.provider ≡ "twitter" → w.twitter_id ≡ u.twitter_id)
  link_keeps_twitter row accounts roles uid d email s s' u v there h =
      let changes : UserChanges = record (provider_changes (provider_field d.provider) d.id) {
        profile_pic = or_else (first_of d.photos) u.profile_pic;
      } in
      (
        changed changes u,
        accounts.update_lem false u.id changes s s' u v there h,
        λ e. rw e refl,
        λ e. refl,
      )

  -- Reading a user by e-mail in a named tenant gives a member of it, and no password, and changes
  -- nothing.
  pub get_user_by_email_hides :
      (tenant email : String) (s s' : S) (r : UseCaseResult User) (u : User)
      → truthy tenant ≡ true
      → get_user_by_email users (some tenant) email false s ≡ (ok r, s')
      → r.value ≡ some u
      → (s' ≡ s) × (in_tenant tenant u ≡ true) × (present u.password ≡ false)
  unfolding get_user_by_email
  get_user_by_email_hides tenant email s s' r u named h has =
      elim (answer (users.find_by_email email with_role_only s)) [
        | inr (e, failed) ↦ absurd (ground (arith, failed, h))
        | inl (none, read) ↦ absurd (ground (arith, read, h, has))
        | inl (some v, read) ↦ elim (Bool-cases (in_tenant tenant v)) [
          | inr stranger ↦ absurd (ground (arith, named, stranger, read, h, has))
          | inl member ↦ elim (Bool-cases (present v.password)) [
            | inl kept ↦
                subst (λ w. (s' ≡ s) × (in_tenant tenant w ≡ true) × (present w.password ≡ false))
                  {x = without_password v} {y = u}
                  (ground (arith, named, member, kept, read, h, has))
                  (ground (arith, read, h), member, refl)
            | inr bare ↦
                subst (λ w. (s' ≡ s) × (in_tenant tenant w ≡ true) × (present w.password ≡ false))
                  {x = v} {y = u} (ground (arith, named, member, bare, read, h, has))
                  (ground (arith, read, h), member, bare)
          ]
        ]
      ]
