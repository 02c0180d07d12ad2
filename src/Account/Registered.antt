-- ===== src/Account/Registered.antt =====
-- What a registration leaves: core/application/auth/register and login.
use api_neutra_v.Prelude.{
  ◌≡◌, inl, inr, refl, ap, sym, ◌∙◌, subst, ℕ, true, false, Bool, String, Option, none, some, List,
  [], ◌∷◌, truthy, str_eq, str_eq_iff, arith,
}
use api_neutra_v.Errors.{domain}
use api_neutra_v.Errors.Http.{http_status_from_domain_error}
use api_neutra_v.Errors.Middleware.{error_middleware}
use api_neutra_v.Runtime.{ok, err, outcome, answer, UseCaseResult, success_of, Refuses}
use api_neutra_v.Access.{
  User, UserTenant, Role, UserRepository, CacheProvider, PasswordHasher, TokenGenerator,
}
use api_neutra_v.Access.Session.{LoginResult, login, cache_key, permission_names, payload}
use api_neutra_v.Access.SignedIn.{login_membership}
use api_neutra_v.Team.{RoleRepository}
use api_neutra_v.Tenant.{TenantRepository}
use api_neutra_v.Account.{
  welcome_email, UserCreateData, AccountRepository, AccountQueue, no_options, signing_in,
  everything,
}
use api_neutra_v.Account.Register.{
  taken, no_user_role, AuthResult, user_role, new_account, enroll, home_tenant, register,
}
use api_neutra_v.Account.Stored.{IsAccounts, with_membership}
use api_neutra_v.Account.Reset.{IsMailing}

-- A hash is some text, and the password fits its hash.
pub record IsHasher (hasher : PasswordHasher) : Type 0 where
  pub hash_lem :
      (password hash : String)
      → hasher.hash password ≡ ok hash
      → (truthy hash ≡ true) × (hasher.compare password hash ≡ ok true)

abbrev pub login_answer : TokenGenerator → User → UserTenant → Role → LoginResult
login_answer tokens u ut role = record {
  user = record u { password = none };
  token = tokens.generate (payload u ut role);
  role = role;
  role_id = ut.role_id;
}

login_works :
    {S : Type 0} (users : UserRepository S) (hasher : PasswordHasher) (tokens : TokenGenerator)
    (cache : CacheProvider S) (tenant email password hash : String) (s s' : S) (u : User)
    (ut : UserTenant) (role : Role)
    → truthy email ≡ true
    → truthy password ≡ true
    → users.find_by_email email s ≡ ok (some u)
    → u.password ≡ some hash
    → truthy hash ≡ true
    → hasher.compare password hash ≡ ok true
    → login_membership users hasher tokens cache (some tenant) u ≡ some (ut, role)
    → cache.set (cache_key u.id tenant) (permission_names role) 3600 s ≡ (ok tt, s')
    → login users hasher tokens cache
        (some tenant)
        (record { email = email; password = password })
        s
      ≡ (ok (success_of (some (login_answer tokens u ut role)) "Login successful"), s')
unfolding login
login_works users hasher tokens cache tenant email password hash s s' u ut role mailed filled found
      has written fits member stored =
    ground (arith, mailed, filled, found, has, written, fits, member, stored)

module _ {S : Type 0} (users : AccountRepository S) (row : Bool → String → S → Option User)
    (accounts : IsAccounts users row) (hasher : PasswordHasher) (tokens : TokenGenerator)
    (queue : AccountQueue S) (tenants : TenantRepository S) (roles : RoleRepository S) where
  -- The account is stored with its hash and with one membership, in the tenant's role USER.
  pub record IsEnrolled (tenant : String) (d : UserCreateData) (s s' : S) (w : User) : Type 0 where
    pub created : S
    pub role : Role
    pub known : roles.find_by_name tenant user_role created ≡ ok (some role)
    pub there : row true w.id s' ≡ some w
    pub email : w.email ≡ d.email
    pub password : w.password ≡ d.password
    pub membership : UserTenant
    pub alone : w.tenants ≡ membership ∷ []
    pub of_tenant : membership.tenant_id ≡ tenant
    pub given : Role
    pub has_role : membership.role ≡ some given
    pub is_role : given.id ≡ role.id

  enroll-IsEnrolled :
      (tenant : String) (d : UserCreateData) (s s' : S) (w : User)
      → enroll users hasher tokens queue tenants roles tenant d s ≡ (ok w, s')
      → IsEnrolled tenant d s s' w
  unfolding enroll
  enroll-IsEnrolled tenant d s s' w h = elim (outcome (users.create d s)) [
    | inr (e, s₁, failed) ↦ absurd (ground (arith, failed, h))
    | inl (u, s₁, made) ↦ elim (answer (roles.find_by_name tenant user_role s₁)) [
      | inr (e, failed) ↦ absurd (ground (arith, made, failed, h))
      | inl (none, nobody) ↦ absurd (ground (arith, made, nobody, h))
      | inl (some role, known) ↦ elim (outcome (users.add_tenant u.id tenant role.id s₁)) [
        | inr (e, s₂, failed) ↦ absurd (ground (arith, made, known, failed, h))
        | inl (v, s₂, added) ↦
            let (mail, name, password, alone, there) = accounts.create_lem d s s₁ u made in
            let (ut, stored, of_tenant, given, has, is) =
              accounts.add_tenant_lem true u.id tenant role.id s₁ s₂ u (there true) alone added in
            let read : users.find_by_id u.id everything s₂ ≡ ok (some (with_membership u ut)) =
              accounts.id_lem u.id everything s₂ ∙ ap ok stored in
            let last : s₂ ≡ s' = ground (arith, made, known, added, read, h) in
            subst (IsEnrolled tenant d s s') {x = with_membership u ut} {y = w}
              (ground (arith, made, known, added, read, h))
              (record {
                created = s₁;
                role = role;
                known = known;
                there = ap (row true u.id) (sym last) ∙ stored;
                email = mail;
                password = password;
                membership = ut;
                alone = refl;
                of_tenant = of_tenant;
                given = given;
                has_role = has;
                is_role = is;
              })
      ]
    ]
  ]

  -- The parts of a registration at a named tenant.
  registered :
      (mails : IsMailing queue row) (tenant password : String) (d : UserCreateData)
      (origin : Option String) (s s' : S) (r : UseCaseResult AuthResult)
      → truthy tenant ≡ true
      → d.password ≡ some password
      → register users hasher tokens queue tenants roles (some tenant) d origin s ≡ (ok r, s')
      → (truthy d.email ≡ true)
        × (truthy password ≡ true)
        × (users.find_by_email d.email no_options s ≡ ok none)
        × (hash : String) × (hasher.hash password ≡ ok hash)
        × (s₁ : S) × (w : User) × IsEnrolled tenant (new_account d hash) s s₁ w
        × (row true w.id s' ≡ row true w.id s₁)
  unfolding register home_tenant
  registered mails tenant password d origin s s' r named filled h =
      elim (answer (users.find_by_email d.email no_options s)) [
        | inr (e, failed) ↦ absurd (ground (arith, named, filled, failed, h))
        | inl (some u, taken) ↦ absurd (ground (arith, named, filled, taken, h))
        | inl (none, free) ↦ elim (answer (hasher.hash password)) [
          | inr (e, failed) ↦ absurd (ground (arith, named, filled, free, failed, h))
          | inl (hash, hashed) ↦
              elim (outcome
                (enroll users hasher tokens queue tenants roles tenant (new_account d hash) s)) [
                  | inr (e, s₁, failed) ↦
                      absurd (ground (arith, named, filled, free, hashed, failed, h))
                  | inl (w, s₁, enrolled) ↦
                      let (s₂, sent, keeps) =
                        mails.enqueue_lem "notifications"
                          (welcome_email w.email w.name tenant origin) s₁ in
                      let last : s' ≡ s₂ =
                        ground (arith, named, filled, free, hashed, enrolled, sent, h) in
                      (
                        ground (arith, named, filled, h),
                        ground (arith, named, filled, h),
                        free,
                        hash,
                        hashed,
                        s₁,
                        w,
                        enroll-IsEnrolled tenant (new_account d hash) s s₁ w enrolled,
                        ap (row true w.id) last ∙ keeps true w.id,
                      )
                ]
        ]
      ]

  -- Whoever registered at a named tenant signs in there with the same e-mail and password, and the
  -- role is the tenant's role USER. The queue and the cache answer.
  pub register_then_login :
      (mails : IsMailing queue row) (hashes : IsHasher hasher) (cache : CacheProvider S)
      → ((key : String) (v : List String) (ttl : ℕ) (s : S)
          → (s' : S) × (cache.set key v ttl s ≡ (ok tt, s')))
      → (tenant password : String) (d : UserCreateData) (origin : Option String) (s s' : S)
        (r : UseCaseResult AuthResult)
      → truthy tenant ≡ true
      → d.password ≡ some password
      → register users hasher tokens queue tenants roles (some tenant) d origin s ≡ (ok r, s')
      → (l : LoginResult) × (s₁ : S) × (login
            (signing_in users)
            hasher
            tokens
            cache
            (some tenant)
            (record { email = d.email; password = password })
            s'
          ≡ (ok (success_of (some l) "Login successful"), s₁))
        × (l.user.email ≡ d.email)
        × (s₀ : S) × (role : Role) × (roles.find_by_name tenant user_role s₀ ≡ ok (some role))
        × (l.role.id ≡ role.id)
  register_then_login mails hashes cache stores tenant password d origin s s' r named filled h =
      let (mailed, typed, free, hash, hashed, s₁, w, is, kept) =
        registered mails tenant password d origin s s' r named filled h in
      let (written, fits) = hashes.hash_lem password hash hashed in
      let found : users.find_by_email d.email everything s' ≡ ok (some w) =
        ap (λ e. users.find_by_email e everything s') (sym is.email)
        ∙ accounts.email_lem w.id everything s' w (kept ∙ is.there) in
      let (s₂, stored) = stores (cache_key w.id tenant) (permission_names is.given) 3600 s' in
      let fit : str_eq tenant is.membership.tenant_id ≡ true =
        (str_eq_iff tenant is.membership.tenant_id).1 (sym is.of_tenant) in
      let member : login_membership (signing_in users) hasher tokens cache (some tenant) w
          ≡ some (is.membership, is.given) =
        ground (arith, is.alone, fit, is.has_role) in
      (
        login_answer tokens w is.membership is.given,
        s₂,
        login_works (signing_in users) hasher tokens cache tenant d.email password hash s' s₂ w
            is.membership is.given mailed typed found is.password written fits member stored,
        is.email,
        is.created,
        is.role,
        is.known,
        is.is_role,
      )

  -- In a tenant without the role USER a registration fails after the account was written, and no
  -- further registration with the e-mail succeeds: it is answered with 409.
  pub register_without_role :
      (tenant password hash : String) (d : UserCreateData) (origin : Option String) (s s₁ : S)
      (u : User)
      → truthy tenant ≡ true
      → truthy d.email ≡ true
      → truthy d.name ≡ true
      → d.password ≡ some password
      → truthy password ≡ true
      → hasher.hash password ≡ ok hash
      → users.find_by_email d.email no_options s ≡ ok none
      → users.create (new_account d hash) s ≡ (ok u, s₁)
      → roles.find_by_name tenant user_role s₁ ≡ ok none
      → (register users hasher tokens queue tenants roles (some tenant) d origin s
          ≡ (err (domain no_user_role), s₁))
        × (row false u.id s₁ ≡ some u)
        × Refuses 409 s₁
            (register users hasher tokens queue tenants roles (some tenant) d origin s₁)
  unfolding register home_tenant enroll error_middleware http_status_from_domain_error
  register_without_role tenant password hash d origin s s₁ u named mailed called filled typed hashed
        free made nobody =
      let (mail, name, pass, alone, there) = accounts.create_lem (new_account d hash) s s₁ u made in
      let again : users.find_by_email d.email no_options s₁ ≡ ok (some u) =
        ap (λ e. users.find_by_email e no_options s₁) (sym mail)
        ∙ accounts.email_lem u.id no_options s₁ u (there false) in
      (
        ground (arith, named, mailed, called, filled, typed, hashed, free, made, nobody),
        there false,
        subst (Refuses 409 s₁) {x = (err (domain (taken tenant d.email u)), s₁)}
            {y = register users hasher tokens queue tenants roles (some tenant) d origin s₁}
            (ground (arith, named, mailed, called, filled, typed, again)) (rw alone (refl, refl)),
      )
