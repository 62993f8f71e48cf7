-- ===== src/Core/Errors.antt =====
-- app/core/errors.py, the exceptions that leave a handler, and app/core/exception_handlers.py.
use swiftpaste.Prelude.{ℕ, String, Option, some}

-- What stands under `details`: a text, or the four fields of a health report.
pub data Details : Type 0 where
  text : String → Details
  report : String → String → String → Option String → Details

pub record AppError : Type 0 where
  pub code : String
  pub message : String
  pub status_code : ℕ
  pub details : Option Details

-- The exceptions by the class that picks their handler. `database` is SQLAlchemy's DBAPIError, which
-- IntegrityError extends; `other` is any other exception, by its class.
pub data Failure : Type 0 where
  app : AppError → Failure
  invalid_request : Failure
  http : ℕ → Failure
  database : Failure
  other : String → Failure

-- A call: it returns or raises, and what it has written stays in the state beside the exception.
pub data Result {ℓ} (A : Type ℓ) : Type ℓ where
  ok : A → Result A
  err : Failure → Result A

-- The status and the fields of the JSON body.
pub record ErrorResponse : Type 0 where
  pub status : ℕ
  pub code : String
  pub message : String
  pub details : Option Details
  pub request_id : Option String

-- The handler that app/main.py registers for the class of the exception.
abbrev pub handle : Option String → Failure → ErrorResponse
handle request_id (app e) = record {
  status = e.status_code;
  code = e.code;
  message = e.message;
  details = e.details;
  request_id = request_id;
}
handle request_id invalid_request = record {
  status = 422;
  code = "VALIDATION_ERROR";
  message = "Request validation failed";
  details = some (text "Validation error. Contact admin.");
  request_id = request_id;
}
handle request_id (http status) = record {
  status = status;
  code = "HTTP_ERROR";
  message = "HTTP error";
  details = some (text "HTTP error occurred");
  request_id = request_id;
}
handle request_id database = record {
  status = 503;
  code = "DB_QUERY_TIMEOUT";
  message = "Database timeout";
  details = some (text "Database operation failed");
  request_id = request_id;
}
handle request_id (other class_name) = record {
  status = 500;
  code = "INTERNAL_SERVER_ERROR";
  message = "Something went wrong";
  details = some (text "Check with admin");
  request_id = request_id;
}
