-- ===== src/Errors.antt =====
-- core/domain/errors/domain-errors.ts, and the other values that code may throw.
pub mod Http
pub mod Middleware
pub mod Laws
use api_neutra_v.Prelude.{ℕ, String, Option, List, ◌<>◌, str_eq, or_default, if◌then◌else◌}

-- `error.name`, which is the name of the class.
pub data ErrorName : Type 0 where
  domain_error entity_not_found business_rule_violation invalid_state duplicate_entity : ErrorName
  validation unauthorized forbidden : ErrorName

pub record DomainError : Type 0 where
  pub name : ErrorName
  pub message : String
  pub code : String

abbrev error_of : ErrorName → String → String → DomainError
error_of n m c = record { name = n; message = m; code = c }

abbrev pub entity_not_found_error : String → String → DomainError
entity_not_found_error entity id =
    error_of entity_not_found (entity <> " with id '" <> id <> "' not found") "ENTITY_NOT_FOUND"

-- The classes below take a code too; the first of each pair fills in the default.
abbrev pub business_rule_violation_error : String → DomainError
business_rule_violation_error m = error_of business_rule_violation m "BUSINESS_RULE_VIOLATION"

abbrev pub business_rule_violation_as : String → String → DomainError
business_rule_violation_as m c = error_of business_rule_violation m c

abbrev pub invalid_state_error : String → DomainError
invalid_state_error m = error_of invalid_state m "INVALID_STATE"

abbrev pub invalid_state_as : String → String → DomainError
invalid_state_as m c = error_of invalid_state m c

abbrev pub duplicate_entity_error : String → String → String → DomainError
duplicate_entity_error entity field value =
    error_of duplicate_entity (entity <> " with " <> field <> " '" <> value <> "' already exists")
      "DUPLICATE_ENTITY"

abbrev pub validation_error : String → DomainError
validation_error m = error_of validation m "VALIDATION_ERROR"

abbrev pub validation_as : String → String → DomainError
validation_as m c = error_of validation m c

abbrev pub unauthorized_error : String → DomainError
unauthorized_error m = error_of unauthorized m "UNAUTHORIZED"

abbrev pub forbidden_error : String → DomainError
forbidden_error m = error_of forbidden m "FORBIDDEN"

-- types/api-response.ts: an entry of an error response, and `AppError`.
pub record ErrorDetail : Type 0 where
  pub code : String
  pub message : String

pub record AppError : Type 0 where
  pub message : String
  pub status_code : ℕ
  pub code : String
  pub details : Option (List ErrorDetail)

-- What a `catch` may receive. A known request error of Prisma is an `Error` with a code such as
-- P2025 (no such record) or P2002 (a unique constraint failed, on `target`).
pub data Thrown : Type 0 where
  domain : DomainError → Thrown
  app : AppError → Thrown
  prisma : (code : String) (target : Option String) (message : String) → Thrown
  js : String → Thrown
  text : String → Thrown
  other : Thrown

-- The handlers of the repositories: P2025 becomes `EntityNotFoundError`, P2002 becomes
-- `DuplicateEntityError`, and all else is thrown again.
abbrev pub not_found_handler : String → String → Thrown → Thrown
not_found_handler entity id (prisma code target m) =
    if str_eq code "P2025" then domain (entity_not_found_error entity id) else prisma code target m
not_found_handler entity id e = e

abbrev pub duplicate_handler : String → String → String → Thrown → Thrown
duplicate_handler entity field value (prisma code target m) =
    if str_eq code "P2002"
    then domain (duplicate_entity_error entity (or_default target field) value)
    else prisma code target m
duplicate_handler entity field value e = e
