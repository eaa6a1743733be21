-- ===== src/Tests/Http.antt =====
-- The middleware of src/pet/api/middleware/http_logging.py around small endpoints.
use fukawa.Prelude.{String, ◌≡◌, refl, none, some, [], ◌∷◌}
use fukawa.Prelude.Dict.{insert, lookup}
use fukawa.Prelude.Result.{Result, ok, err}
use fukawa.Api.Handlers.{Request, text, JsonResponse, unhandled_error_handler}
use fukawa.Api.Failures.{Failure, unhandled_error}
use fukawa.Api.HttpLogging.{
  UuidModule, HttpState, Raised, exception, base_exception, Next, identified, started,
  logging_middleware,
}
use fukawa.Api.HttpLogging.Answers.{IsRequestId, logging_middleware_answers}
use fukawa.Api.HttpLogging.Correlation.{rendering, failure_names_request}

-- reads nothing
abbrev pub uuids : UuidModule
uuids = record { parse = λ raw. none; uuid4 = λ i. i }

abbrev pub request : Request
request = record {
  path = "/orgs/";
  state_request_id = none;
  header_request_id = some "evil\r\nSet-Cookie: a=b";
  issuer_url = "https://id.example/realms/pet";
}

abbrev pub idle : HttpState
idle = record { context = []; events = []; uuids = 70 }

abbrev broken : Request → HttpState → Result Failure JsonResponse × HttpState
broken r s = (err (unhandled_error "boom"), s)

abbrev crashing : Next
crashing r s = (err (exception "boom"), s)

abbrev id : String
id = (started uuids "POST" request idle).0

logging_middleware_answers_example :
    IsRequestId id
    × ((response : JsonResponse)
        → ◌≡◌ {A = Result Raised JsonResponse} (err (exception "boom")) (ok response)
        → (logging_middleware uuids "POST" crashing request idle).0
          ≡ ok (record response { headers = insert "X-Request-ID" id response.headers }))
    × ((m : String)
        → ◌≡◌ {A = Result Raised JsonResponse} (err (exception "boom")) (err (exception m))
        → (logging_middleware uuids "POST" crashing request idle).0
          ≡ ok (record (unhandled_error_handler (identified id request)) {
            headers = ("X-Request-ID", id) ∷ [];
          }))
    × ((m : String)
        → ◌≡◌ {A = Result Raised JsonResponse} (err (exception "boom")) (err (base_exception m))
        → (logging_middleware uuids "POST" crashing request idle).0 ≡ err (base_exception m))
    × ((logging_middleware uuids "POST" crashing request idle).1.context ≡ [])
logging_middleware_answers_example = logging_middleware_answers uuids "POST" crashing request idle

failure_names_request_example :
    (response : JsonResponse) × ((logging_middleware uuids "POST" (rendering broken) request idle).0
      ≡ ok response)
    × (lookup "X-Request-ID" response.headers ≡ some id)
    × (lookup "request_id" response.payload ≡ some (text id))
    × (lookup "request_id" (started uuids "POST" request idle).1.context ≡ some id)
failure_names_request_example =
    failure_names_request uuids "POST" broken request idle (unhandled_error "boom") refl
