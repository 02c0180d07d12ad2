-- ===== src/Access/Authenticate.antt =====
-- How a request is signed in: middleware/authenticate.factory.ts, optional-authenticate.factory.ts
-- and helpers/auth-token.helpers.ts.
use Prim.Native.Char.{code}
use api_neutra_v.Prelude.{String, Option, none, some, ◌==◌, trim, truthy, if◌then◌else◌}
use api_neutra_v.Errors.{Thrown, domain, app, prisma, js, text, other, DomainError}
use api_neutra_v.Errors.Http.{http_status_from_domain_error}
use api_neutra_v.Errors.Middleware.{ErrorResponse, api_error, detail}
use api_neutra_v.Runtime.{Action, ok, err}
use api_neutra_v.Access.{
  TenantRef, AuthenticatedUser, UserRepository, CacheProvider, PasswordHasher, TokenGenerator,
}
use api_neutra_v.Access.Session.{ResolveAuthInput, slug_of, resolve_authenticated_user}

-- The cookie named `token`, the header `authorization`, `req.tenantId` and `req.tenant`.
pub record SignedRequest : Type 0 where
  pub cookie : Option String
  pub authorization : Option String
  pub tenant_id : Option String
  pub tenant : Option TenantRef

-- `next()`, with `req.user` where one was found, or the answer that ends the request.
pub data SignIn : Type 0 where
  passes : Option AuthenticatedUser → SignIn
  answers : ErrorResponse → SignIn

-- `s.startsWith(prefix)` and `s.slice(prefix.length)`
unfoldable pub after : String → String → Option String
after String.[] s = some s
after (String.◌∷◌ c p) String.[] = none
after (String.◌∷◌ c p) (String.◌∷◌ d s) =
    let rest = after p s in if code c == code d then rest else none

-- A text that is not blank, without the spaces around it.
abbrev pub trimmed : Option String → Option String
trimmed none = none
trimmed (some s) = if truthy (trim s) then some (trim s) else none

abbrev pub bearer : Option String → Option String
bearer none = none
bearer (some header) = trimmed (after "Bearer " header)

abbrev pub cookie_or : Option String → Option String → Option String
cookie_or none header = bearer header
cookie_or (some token) header = some token

unfoldable pub extract_auth_token : SignedRequest → Option String
extract_auth_token r = cookie_or (trimmed r.cookie) r.authorization

abbrev pub missing_token : ErrorResponse
missing_token =
    api_error "Authentication required"
      (detail "AUTH_MISSING_TOKEN" "Token is required for this operation") 401

-- `error instanceof Error ? error.message : "Unknown error"`
abbrev error_message : Thrown → String
error_message (domain e) = e.message
error_message (app e) = e.message
error_message (prisma code target m) = m
error_message (js m) = m
error_message (text m) = "Unknown error"
error_message other = "Unknown error"

abbrev domain_answer : DomainError → ErrorResponse
domain_answer e = api_error e.message (detail e.code e.message) (http_status_from_domain_error e)

abbrev invalid_token : Thrown → ErrorResponse
invalid_token e =
    api_error "Invalid or expired token" (detail "AUTH_INVALID_TOKEN" (error_message e)) 403

abbrev pub refusal : Thrown → ErrorResponse
refusal (domain e) = domain_answer e
refusal (app e) = invalid_token (app e)
refusal (prisma code target m) = invalid_token (prisma code target m)
refusal (js m) = invalid_token (js m)
refusal (text m) = invalid_token (text m)
refusal other = invalid_token other

abbrev pub auth_input : SignedRequest → String → ResolveAuthInput
auth_input r token = record {
  token = token;
  tenant_id = r.tenant_id;
  tenant_slug = slug_of r.tenant;
}

module _ {S : Type 0} (users : UserRepository S) (hasher : PasswordHasher) (tokens : TokenGenerator)
    (cache : CacheProvider S) where
  abbrev pub signed_in : SignedRequest → Option String → Action S SignIn
  signed_in r none s = (ok (answers missing_token), s)
  signed_in r (some token) s =
      let (user, s') =
        resolve_authenticated_user users hasher tokens cache (auth_input r token) s in
      (elim user [ ok u ↦ ok (passes (some u)) | err e ↦ ok (answers (refusal e)) ], s')

  unfoldable pub authenticate : SignedRequest → Action S SignIn
  authenticate r = signed_in r (extract_auth_token r)

  abbrev pub maybe_signed_in : SignedRequest → Option String → Action S SignIn
  maybe_signed_in r none s = (ok (passes none), s)
  maybe_signed_in r (some token) s =
      let (user, s') =
        resolve_authenticated_user users hasher tokens cache (auth_input r token) s in
      (elim user [ ok u ↦ ok (passes (some u)) | err e ↦ ok (passes none) ], s')

  unfoldable pub optional_authenticate : SignedRequest → Action S SignIn
  optional_authenticate r = maybe_signed_in r (extract_auth_token r)
