-- ===== src/Tests/Errors.antt =====
-- Errors: the answers of the middleware.
use api_neutra_v.Prelude.{◌≡◌, refl, none}
use api_neutra_v.Errors.{domain, app, invalid_state_as}
use api_neutra_v.Errors.Http.{
  http_status_from_domain_code, http_status_from_domain_error, get_http_status_from_error_code,
  tenant_status,
}
use api_neutra_v.Errors.Middleware.{error_middleware}

-- The class decides before the code: the code alone would give 400.
transition_status :
    ((error_middleware (domain (invalid_state_as "no" "INVALID_STATUS_TRANSITION"))).status_code
      ≡ 409)
    × (http_status_from_domain_code "INVALID_STATUS_TRANSITION" ≡ 400)
unfolding error_middleware http_status_from_domain_error http_status_from_domain_code
transition_status = (refl, refl)

tenant_required :
    (error_middleware (
      app (record {
        message = "x";
        status_code = 400;
        code = "TENANT_REQUIRED";
        details = none;
      }))).status_code
    ≡ 400
unfolding error_middleware get_http_status_from_error_code tenant_status
tenant_required = refl
