-- ===== src/Access/SignedIn.antt =====
-- What signing in gives: core/application/auth/login and resolve-authenticated-user.
use api_neutra_v.Prelude.{
  true, false, ◌≡◌, inl, inr, refl, ap, sym, ◌∙◌, ℕ, String, Option, none, some, List, find, truthy,
  or_else, or_default, Option-cases, Bool-cases, arith,
}
use api_neutra_v.Runtime.{ok, UseCaseResult, answer, outcome}
use api_neutra_v.Access.{
  User, UserTenant, Role, JwtPayload, AuthenticatedUser, UserRepository, CacheProvider,
  PasswordHasher, TokenGenerator,
}
use api_neutra_v.Access.Session.{
  LoginDto, LoginResult, ResolveAuthInput, is_login_tenant, is_global_super_admin, permission_names,
  token_role, payload, with_role, with_password, cache_key, login, load, with_permissions,
  first_text, request_key, resolve_authenticated_user,
}

-- What the theorems use of the cache, for entries that have not expired.
pub record IsCache {S : Type 0} (cache : CacheProvider S) : Type 0 where
  pub set_get :
      (key : String) (v : List String) (ttl : ℕ) (s : S)
      → cache.get key (cache.set key v ttl s).1 ≡ ok (some v)

module _ {S : Type 0} (users : UserRepository S) (hasher : PasswordHasher) (tokens : TokenGenerator)
    (cache : CacheProvider S) where
  -- The membership that a login is granted by: of the tenant, or of the global super administrator.
  abbrev pub login_membership : Option String → User → Option (UserTenant × Role)
  login_membership tenant u =
      with_role
        (or_else (find (is_login_tenant tenant) u.tenants) (find is_global_super_admin u.tenants))

  pub record IsLoggedIn (tenant : Option String) (d : LoginDto) (s s' : S) (r : LoginResult)
      : Type 0 where
    pub found : Option User
    pub was_found : users.find_by_email d.email s ≡ ok found
    pub user : User
    pub hash : String
    pub has_password : with_password found ≡ some (user, hash)
    pub verified : hasher.compare d.password hash ≡ ok true
    pub membership : UserTenant
    pub role : Role
    pub member : login_membership tenant user ≡ some (membership, role)
    pub token : r.token ≡ tokens.generate (payload user membership role)
    pub role_given : r.role ≡ role
    pub no_password : r.user.password ≡ none
    pub stored :
        cache.set (cache_key user.id (or_default tenant "undefined")) (permission_names role) 3600 s
        ≡ (ok tt, s')

  abbrev answer_of : User → UserTenant → Role → LoginResult
  answer_of user ut role = record {
    user = record user { password = none };
    token = tokens.generate (payload user ut role);
    role = role;
    role_id = ut.role_id;
  }

  -- A login that returns found a user with that e-mail and a password that the hasher accepts, and a
  -- membership with a role: of the tenant, or the global super administrator's where the user has
  -- none of the tenant. The token carries that role, the password is not in the answer, and the
  -- role's permissions are cached.
  pub login-IsLoggedIn :
      (tenant : Option String) (d : LoginDto) (s s' : S) (r : UseCaseResult LoginResult)
      → login users hasher tokens cache tenant d s ≡ (ok r, s')
      → (l : LoginResult) × (r.value ≡ some l) × IsLoggedIn tenant d s s' l
  unfolding login
  login-IsLoggedIn tenant d s s' r h = elim (answer (users.find_by_email d.email s)) [
    | inr (e, failed) ↦ absurd (ground (arith, failed))
    | inl (found, read) ↦ elim (Option-cases (with_password found)) [
      | inl nobody ↦ absurd (ground (arith, read, nobody))
      | inr ((user, hash), has) ↦ elim (answer (hasher.compare d.password hash)) [
        | inr (e, failed) ↦ absurd (ground (arith, read, has, failed))
        | inl (false, wrong) ↦ absurd (ground (arith, read, has, wrong))
        | inl (true, verified) ↦ elim (Option-cases (login_membership tenant user)) [
          | inl stranger ↦ absurd (ground (arith, read, has, verified, stranger))
          | inr ((ut, role), member) ↦
              elim (outcome (
                cache.set (cache_key user.id (or_default tenant "undefined"))
                  (permission_names role) 3600 s)) [
                    | inr (e, s₁, failed) ↦
                        absurd (ground (arith, read, has, verified, member, failed))
                    | inl (u, s₁, stored) ↦ (
                      answer_of user ut role,
                      ground (arith, read, has, verified, member, stored),
                      record {
                        found = found;
                        was_found = read;
                        user = user;
                        hash = hash;
                        has_password = has;
                        verified = verified;
                        membership = ut;
                        role = role;
                        member = member;
                        token = refl;
                        role_given = refl;
                        no_password = refl;
                        stored = ground (arith, read, has, verified, member, stored);
                      },
                    )
                  ]
        ]
      ]
    ]
  ]

  -- After a login at a named tenant, a request with its token and that tenant has the role of the
  -- membership and the role's permissions, while the cached entry lasts. The repository of the users
  -- is not asked again, so it makes no difference whether the account is active.
  pub resolve_after_login :
      (caches : IsCache cache) (tenant : String) (d : LoginDto) (slug : Option String) (s s' : S)
      (r : LoginResult)
      → truthy tenant ≡ true
      → (given : IsLoggedIn (some tenant) d s s' r)
      → tokens.verify (tokens.generate (payload given.user given.membership given.role))
        ≡ ok (payload given.user given.membership given.role)
      → resolve_authenticated_user users hasher tokens cache
          (record { token = r.token; tenant_id = some tenant; tenant_slug = slug })
          s'
        ≡ (
          ok (
              with_permissions users hasher tokens cache
                (payload given.user given.membership given.role)
                (token_role given.role, permission_names given.role)),
          s',
        )
  unfolding resolve_authenticated_user
  resolve_after_login caches tenant d slug s s' r named given verifies =
      let kept =
        ap (λ x. cache.get (cache_key given.user.id tenant) x.1) (sym given.stored)
        ∙ caches.set_get (cache_key given.user.id tenant) (permission_names given.role) 3600 s in
      let signed = ap tokens.verify given.token ∙ verifies in ground (arith, kept, signed, named)

  -- Without a cached entry, a request is resolved only for a user who is there and active.
  pub resolve_active :
      (input : ResolveAuthInput) (decoded : JwtPayload) (s s' : S) (u : AuthenticatedUser)
      → tokens.verify input.token ≡ ok decoded
      → cache.get
          (request_key users hasher tokens cache decoded
            (first_text input.tenant_id decoded.tenant_id))
          s
        ≡ ok none
      → resolve_authenticated_user users hasher tokens cache input s ≡ (ok u, s')
      → (user : User) × (users.find_by_id decoded.id s ≡ ok (some user)) × (user.active ≡ true)
  unfolding resolve_authenticated_user load
  resolve_active input decoded s s' u verified miss h =
      elim (answer (users.find_by_id decoded.id s)) [
        | inr (e, failed) ↦ absurd (ground (arith, verified, miss, failed))
        | inl (none, found) ↦ absurd (ground (arith, verified, miss, found))
        | inl (some user, found) ↦ elim (Bool-cases user.active) [
          | inl active ↦ (user, found, active)
          | inr inactive ↦ absurd (ground (arith, verified, miss, found, inactive))
        ]
      ]
