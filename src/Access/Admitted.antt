-- ===== src/Access/Admitted.antt =====
-- What the middlewares of signing in let pass: middleware/authenticate.factory.ts and
-- optional-authenticate.factory.ts.
use text.Mathlib.TextLemmas.{nil-append, cons-append}
use api_neutra_v.Prelude.{
  ◌≡◌, ◌⊎◌, inl, inr, refl, true, String, none, some, ◌<>◌, truthy, Option-cases, arith,
}
use api_neutra_v.Errors.Middleware.{ErrorResponse}
use api_neutra_v.Runtime.{ok, outcome}
use api_neutra_v.Access.{
  AuthenticatedUser, UserRepository, CacheProvider, PasswordHasher, TokenGenerator,
}
use api_neutra_v.Access.Session.{
  LoginDto, LoginResult, payload, token_role, permission_names, slug_of, with_permissions,
  resolve_authenticated_user,
}
use api_neutra_v.Access.SignedIn.{IsCache, IsLoggedIn, resolve_after_login}
use api_neutra_v.Access.Authenticate.{
  SignedRequest, passes, answers, trimmed, extract_auth_token, auth_input, authenticate,
  optional_authenticate, missing_token, refusal, after,
}

after-append : (p s : String) → after p (p <> s) ≡ some s
unfolding after
after-append String.[] s = rw (nil-append s) refl
after-append (String.◌∷◌ c p) s = rw (cons-append c p s, after-append p s) (ground arith)

module _ {S : Type 0} (users : UserRepository S) (hasher : PasswordHasher) (tokens : TokenGenerator)
    (cache : CacheProvider S) where
  -- A request with a user: it has a token, and the token was resolved.
  abbrev pub IsSigned : SignedRequest → AuthenticatedUser → S → S → Type 0
  IsSigned r u s s' =
      (token : String) × (extract_auth_token r ≡ some token)
      × (resolve_authenticated_user users hasher tokens cache (auth_input r token) s ≡ (ok u, s'))

  -- Both middlewares always end and leave the same store. Either the token of the request is
  -- resolved, and both pass on its user; or the strict one answers, and the optional one passes
  -- without a user.
  pub optional_agrees :
      (r : SignedRequest) (s : S)
      → ((u : AuthenticatedUser) × (s' : S) × IsSigned r u s s'
          × (authenticate users hasher tokens cache r s ≡ (ok (passes (some u)), s'))
          × (optional_authenticate users hasher tokens cache r s ≡ (ok (passes (some u)), s')))
        ⊎ ((a : ErrorResponse) × (s' : S) × (authenticate users hasher tokens cache r s
              ≡ (ok (answers a), s'))
            × (optional_authenticate users hasher tokens cache r s ≡ (ok (passes none), s')))
  unfolding authenticate optional_authenticate
  optional_agrees r s = elim (Option-cases (extract_auth_token r)) [
    | inl bare ↦ inr (missing_token, s, ground (arith, bare), ground (arith, bare))
    | inr (token, has) ↦
        elim (outcome
          (resolve_authenticated_user users hasher tokens cache (auth_input r token) s)) [
            | inl (u, s', resolved) ↦ inl (
              u,
              s',
              (token, has, resolved),
              ground (arith, has, resolved),
              ground (arith, has, resolved),
            )
            | inr (e, s', failed) ↦
                inr (refusal e, s', ground (arith, has, failed), ground (arith, has, failed))
          ]
  ]

  extracted :
      (r : SignedRequest) (token : String)
      → trimmed (some token) ≡ some token
      → ((r.cookie ≡ some token)
          ⊎ ((trimmed r.cookie ≡ none) × (r.authorization ≡ some ("Bearer " <> token))))
      → extract_auth_token r ≡ some token
  unfolding extract_auth_token
  extracted r token plain (inl cookie) = rw (cookie, plain) refl
  extracted r token plain (inr (bare, header)) =
      rw (bare, header, after-append "Bearer " token, plain) refl

  -- Whoever logs in at a named tenant gets a token that works: a request to that tenant with the
  -- token in its cookie, or in the header without a cookie, passes the strict middleware, and its
  -- user has the role and the permissions of the membership, while the cached entry lasts. The token
  -- has no spaces around it, and is verified as what it was made from.
  pub login_then_authenticate :
      (caches : IsCache cache) (tenant : String) (d : LoginDto) (s s' : S) (l : LoginResult)
      (r : SignedRequest)
      → truthy tenant ≡ true
      → (given : IsLoggedIn users hasher tokens cache (some tenant) d s s' l)
      → tokens.verify (tokens.generate (payload given.user given.membership given.role))
        ≡ ok (payload given.user given.membership given.role)
      → trimmed (some l.token) ≡ some l.token
      → r.tenant_id ≡ some tenant
      → ((r.cookie ≡ some l.token)
          ⊎ ((trimmed r.cookie ≡ none) × (r.authorization ≡ some ("Bearer " <> l.token))))
      → authenticate users hasher tokens cache r s' ≡ (
        ok (
            passes (
              some (
                with_permissions users hasher tokens cache
                  (payload given.user given.membership given.role)
                  (token_role given.role, permission_names given.role)))),
        s',
      )
  unfolding authenticate
  login_then_authenticate caches tenant d s s' l r named given verifies plain here carried =
      let has = extracted r l.token plain carried in
      let works =
        resolve_after_login users hasher tokens cache caches tenant d (slug_of r.tenant) s s' l
          named given verifies in
      ground (arith, has, here, works)
