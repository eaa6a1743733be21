-- ===== src/Api/Failures.antt =====
-- src/pet/api/exception_handlers.py: what an endpoint raises, and the response that FastAPI makes of it by
-- the handlers that register_exception_handlers registers.
use fukawa.Prelude.{String, Option, List}
use fukawa.Prelude.Result.{Result, ok, err}
use fukawa.App.Errors.{AppError}
use fukawa.App.Auth.{AuthenticationError, AuthorizationError}
use fukawa.Infra.Session.{
  driver, foreign, Exc, persistence, validation, app, uow_not_initialized, uncaught,
}
use fukawa.Api.Handlers.{
  Request, JsonResponse, HttpException, app_error_handler, http_error_handler,
  validation_error_handler, on_authn, on_authz,
}
use fukawa.Api.HttpLogging.{Raised, exception}

-- What an endpoint raises, by the class that a handler is registered for.
pub data Failure : Type 0 where
  app_error : AppError → Failure
  http_exception : HttpException → Failure
  request_validation_error : List (Option String) → Failure
  authentication_error : AuthenticationError → Failure
  authorization_error : AuthorizationError → Failure
  unhandled_error : String → Failure

-- register_exception_handlers: the handler of the class; an exception without one reaches the
-- middleware
unfoldable pub handled : Request → Failure → Result Raised JsonResponse
unfolding app_error_handler http_error_handler validation_error_handler on_authn on_authz
handled r (app_error e) = ok (app_error_handler r e)
handled r (http_exception e) = ok (http_error_handler r e)
handled r (request_validation_error es) = ok (validation_error_handler r es)
handled r (authentication_error e) = ok (on_authn r e)
handled r (authorization_error e) = ok (on_authz r e)
handled r (unhandled_error m) = err (exception m)

abbrev pub failure_of : Exc → Failure
failure_of (app e) = app_error e
failure_of (persistence _) = unhandled_error "PersistenceError"
failure_of (validation e) = unhandled_error e.message
failure_of (uow_not_initialized name) = unhandled_error name
failure_of (uncaught (driver e)) = unhandled_error "DBDriverError"
failure_of (uncaught (foreign m)) = unhandled_error m
