-- ===== src/Api/Handlers/Problem.antt =====
-- The status of an error, the problem document and the handlers.
use Prim.Native.Char.{Char, code}
use fukawa.Prelude.{
  ℕ, String, Bool, false, ◌&&◌, ◌||◌, Option, none, some, List, [], ◌∷◌, ◌++◌, ◌+++◌, leb,
  if◌then◌else◌,
}
use fukawa.Prelude.Text.{is_blank}
use fukawa.Prelude.Dict.{Dict}
use fukawa.App.Errors.{AppError, AppErrorCode, code_text, validation_error_title}
use fukawa.App.Auth.{
  AuthError, AuthenticationError, AuthorizationError, authentication, authorization, error_code,
  description,
}

unfoldable pub get_http_status_for_error : AppErrorCode → ℕ
get_http_status_for_error AppErrorCode.conflict = 409
get_http_status_for_error AppErrorCode.organization_name_taken = 409
get_http_status_for_error AppErrorCode.not_found = 404
get_http_status_for_error AppErrorCode.validation = 422
get_http_status_for_error AppErrorCode.service_unavailable = 503
get_http_status_for_error AppErrorCode.internal_error = 500

-- What the handlers read of a request and of the application's state.
pub record Request : Type 0 where
  pub path : String
  pub state_request_id : Option String
  pub header_request_id : Option String
  pub issuer_url : String

-- A value of the payload; `errors` are the entries of a RequestValidationError, each by the text of
-- its `ctx.error`, if it has one.
pub data Value : Type 0 where
  text : String → Value
  number : ℕ → Value
  errors : List (Option String) → Value

pub record JsonResponse : Type 0 where
  pub payload : Dict Value
  pub status_code : ℕ
  pub media_type : String
  pub headers : Dict String

-- _request_id: an empty text counts as missing
unfoldable pub request_id_of : Request → Option String
request_id_of r = elim r.state_request_id [
  | none ↦ r.header_request_id
  | some id ↦ if is_blank id then r.header_request_id else some id
]

abbrev pub is_char : ℕ → Char → Bool
is_char n c = leb n (code c) && leb (code c) n

-- value.replace(c, by), for a text c of one character
unfoldable pub replace_char : ℕ → String → String → String
replace_char n by String.[] = String.[]
replace_char n by (String.◌∷◌ c s) =
    let rest = replace_char n by s in if is_char n c then by +++ rest else String.◌∷◌ c rest

-- _escape_quoted
unfoldable pub escape_quoted : String → String
unfolding replace_char
escape_quoted value = replace_char b'"' "\\\"" (replace_char 92 "\\\\" value)

abbrev has_slash : String → Bool
has_slash String.[] = false
has_slash (String.◌∷◌ c s) = is_char b'/' c || has_slash s

-- url.split("/")[-1]
unfoldable pub last_segment : String → String
last_segment String.[] = String.[]
last_segment (String.◌∷◌ c s) =
    let rest = last_segment s in
    if has_slash s then rest else if is_char b'/' c then s else String.◌∷◌ c s

-- _www_authenticate_header, up to the text of the description
unfoldable pub header_start : AuthError → Request → String
unfolding last_segment error_code
header_start error r =
    "Bearer realm=\""
    +++ (last_segment r.issuer_url +++ ("\", error=\"" +++ (error_code error +++ "\"")))

unfoldable pub www_authenticate_header : AuthError → Request → String
unfolding header_start description escape_quoted
www_authenticate_header error r =
    if is_blank (description error)
    then header_start error r
    else header_start error r
      +++ (", error_description=\"" +++ (escape_quoted (description error) +++ "\""))

abbrev optional : String → Option String → Dict Value
optional key none = []
optional key (some v) = (key, text v) ∷ []

abbrev optional_errors : Option (List (Option String)) → Dict Value
optional_errors none = []
optional_errors (some es) = ("errors", errors es) ∷ []

-- The arguments of `problem`, without `type_`, which no caller gives.
pub record ProblemArgs : Type 0 where
  pub title : String
  pub status : ℕ
  pub detail : Option String
  pub instance_path : Option String
  pub code : Option String
  pub error_list : Option (List (Option String))
  pub request_id : Option String
  pub headers : Dict String

unfoldable pub problem : ProblemArgs → JsonResponse
problem a = record {
  payload =
      (("type", text "about:blank") ∷ ("title", text a.title) ∷ ("status", number a.status) ∷ [])
      ++ (optional "detail" a.detail
          ++ (optional "instance" a.instance_path
              ++ (optional "code" a.code
                  ++ (optional_errors a.error_list ++ optional "request_id" a.request_id))));
  status_code = a.status;
  media_type = "application/problem+json";
  headers = a.headers;
}

unfoldable pub app_error_handler : Request → AppError → JsonResponse
unfolding problem get_http_status_for_error request_id_of
app_error_handler r e = problem (record {
  title = e.title;
  status = get_http_status_for_error e.code;
  detail = e.detail;
  instance_path = some r.path;
  code = some (code_text e.code);
  error_list = none;
  request_id = request_id_of r;
  headers = [];
})

-- StarletteHTTPException
pub record HttpException : Type 0 where
  pub status_code : ℕ
  pub detail : String
  pub headers : Dict String

unfoldable pub http_error_handler : Request → HttpException → JsonResponse
unfolding problem request_id_of
http_error_handler r e = problem (record {
  title = "HTTPException";
  status = e.status_code;
  detail = some e.detail;
  instance_path = some r.path;
  code = some "http_error";
  error_list = none;
  request_id = request_id_of r;
  headers = e.headers;
})

-- `str(original_error)` where there is just one error and it has one
abbrev pub validation_detail : List (Option String) → String
validation_detail (some original_error ∷ []) = original_error
validation_detail _ = "Request validation failed"

unfoldable pub validation_error_handler : Request → List (Option String) → JsonResponse
unfolding problem request_id_of
validation_error_handler r es = problem (record {
  title = validation_error_title;
  status = 422;
  detail = some (validation_detail es);
  instance_path = some r.path;
  code = some (code_text AppErrorCode.validation);
  error_list = some es;
  request_id = request_id_of r;
  headers = [];
})

unfoldable pub on_authn : Request → AuthenticationError → JsonResponse
unfolding problem request_id_of www_authenticate_header
on_authn r e = problem (record {
  title = "Unauthorized";
  status = 401;
  detail = some (description (authentication e));
  instance_path = some r.path;
  code = some (error_code (authentication e));
  error_list = none;
  request_id = request_id_of r;
  headers = ("WWW-Authenticate", www_authenticate_header (authentication e) r) ∷ [];
})

unfoldable pub on_authz : Request → AuthorizationError → JsonResponse
unfolding problem request_id_of error_code description
on_authz r e = problem (record {
  title = "Forbidden";
  status = 403;
  detail = some (description (authorization e));
  instance_path = some r.path;
  code = some (error_code (authorization e));
  error_list = none;
  request_id = request_id_of r;
  headers = [];
})

unfoldable pub unhandled_error_handler : Request → JsonResponse
unfolding problem request_id_of
unhandled_error_handler r = problem (record {
  title = "Internal Server Error";
  status = 500;
  detail = some "Unexpected error";
  instance_path = some r.path;
  code = some "internal_error";
  error_list = none;
  request_id = request_id_of r;
  headers = [];
})
