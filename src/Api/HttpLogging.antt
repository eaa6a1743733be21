-- ===== src/Api/HttpLogging.antt =====
-- src/pet/api/middleware/http_logging.py: the identifier of a request, its log events and its response.
-- The durations are left out.
pub mod Answers
pub mod Correlation
use fukawa.Prelude.{
  ℕ, suc, String, Bool, true, false, ◌||◌, Option, none, some, List, [], ◌∷◌, ◌++◌, contains, ◌==◌,
  if◌then◌else◌,
}
use fukawa.Prelude.Text.{is_blank}
use fukawa.Prelude.Text.Uuid.{hex, canonical}
use fukawa.Prelude.Dict.{Dict, insert}
use fukawa.Prelude.Result.{Result, ok, err}
use fukawa.Api.Handlers.{Request, JsonResponse, problem}

-- The module `uuid`: `parse raw` is UUID(raw), `none` where that raises ValueError; `uuid4 i` is the
-- UUID of draw i.
pub record UuidModule : Type 0 where
  pub parse : String → Option ℕ
  pub uuid4 : ℕ → ℕ

-- What a call raises: an Exception, or a BaseException that is none, such as a cancellation.
pub data Raised : Type 0 where
  exception : String → Raised
  base_exception : String → Raised

-- A log event with the context variables that it is merged with.
pub record Event : Type 0 where
  pub name : String
  pub context : Dict String
  pub status_code : Option ℕ

-- The context variables of structlog, the events that were logged, the newest last, and the number of
-- UUIDs that were drawn.
pub record HttpState : Type 0 where
  pub context : Dict String
  pub events : List Event
  pub uuids : ℕ

-- call_next
abbrev pub Next : Type 0
Next = Request → HttpState → Result Raised JsonResponse × HttpState

-- request.url.path in SKIP_LOG_PATHS
abbrev pub is_skipped : (path : String) → Bool
is_skipped path = contains ("/healthz" ∷ "/readyz" ∷ []) path

abbrev log : (name : String) → (status_code : Option ℕ) → HttpState → HttpState
log name status_code s = record s {
  events =
      s.events ++ (record { name = name; context = s.context; status_code = status_code } ∷ []);
}

abbrev log_unless_skipped :
    Request → (name : String) → (status_code : Option ℕ) → HttpState → HttpState
log_unless_skipped r name status_code s = if is_skipped r.path then s else log name status_code s

abbrev clear_contextvars : HttpState → HttpState
clear_contextvars s = record s { context = [] }

-- request.state.request_id = request_id
abbrev pub identified : (request_id : String) → Request → Request
identified request_id r = record r { state_request_id = some request_id }

module _ (u : UuidModule) where
  abbrev drawn : HttpState → String × HttpState
  drawn s = (hex (u.uuid4 s.uuids), record s { uuids = suc s.uuids })

  abbrev or_drawn : Option ℕ → HttpState → String × HttpState
  or_drawn (some uuid) s = (canonical uuid, s)
  or_drawn none s = drawn s

  -- _parse_request_id
  unfoldable pub parse_request_id : (raw : Option String) → HttpState → String × HttpState
  parse_request_id none s = drawn s
  parse_request_id (some raw) s = if is_blank raw then drawn s else or_drawn (u.parse raw) s

  abbrev with_request_id : String → JsonResponse → JsonResponse
  with_request_id id response = record response {
    headers = insert "X-Request-ID" id response.headers;
  }

  -- the response of the `except` clause
  unfoldable pub unhandled : (request_id : String) → Request → JsonResponse
  unfolding problem
  unhandled request_id r = with_request_id request_id (
      problem (record {
        title = "Internal Server Error";
        status = 500;
        detail = some "Unexpected error";
        instance_path = some r.path;
        code = some "internal_error";
        error_list = none;
        request_id = some request_id;
        headers = [];
      }))

  -- the clauses of the `try` statement
  unfoldable pub answered :
      (request_id : String)
      → Request
      → Result Raised JsonResponse × HttpState
      → Result Raised JsonResponse × HttpState
  unfolding unhandled
  answered request_id r (ok response, s) = (
    ok (with_request_id request_id response),
    clear_contextvars (log_unless_skipped r "http_request_finished" (some response.status_code) s),
  )
  answered request_id r (err (exception _), s) = (
    ok (unhandled request_id r),
    clear_contextvars (
        log_unless_skipped r "http_request_finished" (some 500) (log "unhandled_exception" none s)),
  )
  answered request_id r (err (base_exception m), s) = (err (base_exception m), clear_contextvars s)

  abbrev bound : (request_id http_method : String) → Request → HttpState → HttpState
  bound request_id http_method r s = record s {
    context =
        insert "http_path" r.path
          (insert "http_method" http_method (insert "request_id" request_id s.context));
  }

  abbrev pub started : (http_method : String) → Request → HttpState → String × HttpState
  started http_method r s =
      let (request_id, t) = parse_request_id r.header_request_id (clear_contextvars s) in
      (
        request_id,
        log_unless_skipped r "http_request_started" none (bound request_id http_method r t),
      )

  -- logging_middleware
  unfoldable pub logging_middleware :
      (http_method : String) → Next → Request → HttpState → Result Raised JsonResponse × HttpState
  unfolding parse_request_id answered
  logging_middleware http_method call_next r s =
      let (request_id, t) = started http_method r s in
      answered request_id (identified request_id r) (call_next (identified request_id r) t)
