-- ===== src/Errors/Http.antt =====
-- types/error-codes.ts: the HTTP status of a domain error and of an error code.
use text.Mathlib.Text.{starts_with}
use api_neutra_v.Prelude.{ℕ, String, str_eq, if◌then◌else◌}
use api_neutra_v.Errors.{
  ErrorName, domain_error, entity_not_found, business_rule_violation, invalid_state,
  duplicate_entity, validation, unauthorized, forbidden, DomainError,
}

unfoldable pub http_status_from_domain_code : String → ℕ
http_status_from_domain_code code =
    if str_eq code "ENTITY_NOT_FOUND"
    then 404
    else if str_eq code "BUSINESS_RULE_VIOLATION"
    then 422
    else if str_eq code "INVALID_STATE"
    then 409
    else if str_eq code "DUPLICATE_ENTITY"
    then 409
    else if str_eq code "VALIDATION_ERROR"
    then 400
    else if str_eq code "UNAUTHORIZED"
    then 401
    else if str_eq code "FORBIDDEN"
    then 403
    else if str_eq code "CART_EMPTY"
    then 422
    else if str_eq code "INSUFFICIENT_STOCK"
    then 422
    else if str_eq code "TENANT_NOT_FOUND"
    then 404
    else 400

abbrev status_of_name : ErrorName → String → ℕ
status_of_name entity_not_found code = 404
status_of_name business_rule_violation code = 422
status_of_name invalid_state code = 409
status_of_name duplicate_entity code = 409
status_of_name unauthorized code = 401
status_of_name forbidden code = 403
status_of_name validation code = 400
status_of_name domain_error code = http_status_from_domain_code code

unfoldable pub http_status_from_domain_error : DomainError → ℕ
unfolding http_status_from_domain_code
http_status_from_domain_error e = status_of_name e.name e.code

-- The codes under one prefix, for the two prefixes that tell codes apart.
unfoldable pub resource_status : String → ℕ
resource_status code =
    if str_eq code "RESOURCE_NOT_FOUND"
    then 404
    else if str_eq code "RESOURCE_ROUTE_NOT_FOUND"
    then 404
    else if str_eq code "RESOURCE_ALREADY_EXISTS"
    then 409
    else if str_eq code "RESOURCE_CONFLICT"
    then 409
    else if str_eq code "RESOURCE_GONE"
    then 410
    else 400

unfoldable pub tenant_status : String → ℕ
tenant_status code =
    if str_eq code "TENANT_NOT_FOUND"
    then 404
    else if str_eq code "TENANT_INACTIVE"
    then 403
    else 400

-- The last tests of the chain.
unfoldable pub system_status : String → ℕ
system_status code =
    if starts_with code "DB_"
    then 500
    else if starts_with code "EXTERNAL_"
    then 502
    else if starts_with code "RATE_LIMIT_"
    then 429
    else if starts_with code "WHATSAPP_"
    then if str_eq code "WHATSAPP_CONFIG_NOT_FOUND" then 404 else 502
    else 500

unfoldable pub get_http_status_from_error_code : String → ℕ
get_http_status_from_error_code code =
    if starts_with code "AUTH_"
    then if str_eq code "AUTH_FORBIDDEN" then 403 else 401
    else if starts_with code "VALIDATION_"
    then 400
    else if starts_with code "RESOURCE_"
    then resource_status code
    else if starts_with code "TENANT_"
    then tenant_status code
    else if starts_with code "BUSINESS_"
    then 422
    else system_status code
