-- ===== src/Errors/Laws.antt =====
-- What the HTTP mapping guarantees.
use api_neutra_v.Prelude.{ℕ, String, false, ◌≡◌, ◌≤◌, arith}
use api_neutra_v.Errors.{Thrown, domain, app, DomainError}
use api_neutra_v.Errors.Http.{
  http_status_from_domain_code, http_status_from_domain_error, get_http_status_from_error_code,
  resource_status, tenant_status, system_status,
}
use api_neutra_v.Errors.Middleware.{error_middleware}

-- A status of an error answer.
abbrev IsErrorStatus : ℕ → Type 0
IsErrorStatus n = (400 ≤ n) × (n ≤ 502)

domain_code-IsErrorStatus : (c : String) → IsErrorStatus (http_status_from_domain_code c)
unfolding http_status_from_domain_code
domain_code-IsErrorStatus c = ground arith

domain_error-IsErrorStatus : (e : DomainError) → IsErrorStatus (http_status_from_domain_error e)
unfolding http_status_from_domain_error
domain_error-IsErrorStatus e = ground (arith, domain_code-IsErrorStatus e.code)

resource_status-IsErrorStatus : (c : String) → IsErrorStatus (resource_status c)
unfolding resource_status
resource_status-IsErrorStatus c = ground arith

tenant_status-IsErrorStatus : (c : String) → IsErrorStatus (tenant_status c)
unfolding tenant_status
tenant_status-IsErrorStatus c = ground arith

system_status-IsErrorStatus : (c : String) → IsErrorStatus (system_status c)
unfolding system_status
system_status-IsErrorStatus c = ground arith

error_code-IsErrorStatus : (c : String) → IsErrorStatus (get_http_status_from_error_code c)
unfolding get_http_status_from_error_code
error_code-IsErrorStatus c = ground (
  arith,
  resource_status-IsErrorStatus c,
  tenant_status-IsErrorStatus c,
  system_status-IsErrorStatus c,
)

-- Whatever is thrown, the middleware answers `success: false` with a status between 400 and 502.
pub error_middleware_bounds :
    (t : Thrown)
    → ((error_middleware t).success ≡ false)
      × (400 ≤ (error_middleware t).status_code)
      × ((error_middleware t).status_code ≤ 502)
unfolding error_middleware
error_middleware_bounds (domain e) = ground (arith, domain_error-IsErrorStatus e)
error_middleware_bounds (app e) = ground (arith, error_code-IsErrorStatus e.code)
error_middleware_bounds t = ground arith
