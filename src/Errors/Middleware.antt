-- ===== src/Errors/Middleware.antt =====
-- middleware/error.middleware.ts: the answer to a thrown value. Logging, the trace id, the time
-- stamp and the stack that it adds outside production are left out.
use api_neutra_v.Prelude.{ℕ, Bool, false, String, List, [], ◌∷◌, or_default, truthy, if◌then◌else◌}
use api_neutra_v.Errors.{ErrorDetail, Thrown, domain, app, prisma, js, text, other}
use api_neutra_v.Errors.Http.{http_status_from_domain_error, get_http_status_from_error_code}

pub record ErrorResponse : Type 0 where
  pub success : Bool
  pub status_code : ℕ
  pub message : String
  pub errors : List ErrorDetail

-- `ApiResponse.error`
abbrev pub api_error : String → List ErrorDetail → ℕ → ErrorResponse
api_error m es s = record { success = false; status_code = s; message = m; errors = es }

abbrev pub detail : String → String → List ErrorDetail
detail c m = record { code = c; message = m } ∷ []

unfoldable pub error_middleware : Thrown → ErrorResponse
error_middleware (domain e) =
    api_error e.message (detail e.code e.message) (http_status_from_domain_error e)
error_middleware (app e) =
    api_error e.message
      (or_default e.details
        (detail (if truthy e.code then e.code else "SYSTEM_INTERNAL_ERROR") e.message))
      (get_http_status_from_error_code e.code)
error_middleware (prisma c t m) = api_error m (detail "SYSTEM_INTERNAL_ERROR" m) 500
error_middleware (js m) = api_error m (detail "SYSTEM_INTERNAL_ERROR" m) 500
error_middleware (text m) = api_error m (detail "SYSTEM_UNKNOWN_ERROR" m) 500
error_middleware other = api_error "An unexpected error occurred" [] 500
