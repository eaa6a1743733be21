-- ===== src/Tests/Responses.antt =====
-- The handlers of src/pet/api/exception_handlers.py on errors of the database and of authentication.
use fukawa.Prelude.{String, ◌≡◌, refl, true, false, none, some, ◌+++◌}
use fukawa.Prelude.Text.{is_blank}
use fukawa.App.Auth.{AuthError, authentication, invalid_token, description}
use fukawa.Infra.Persistence.{DriverError, operational_error}
use fukawa.Api.Handlers.{Request, header_start, www_authenticate_header}
use fukawa.Api.Handlers.Quoting.{read_quoted, www_authenticate_reads_back}

abbrev lost_connection : DriverError
lost_connection = record {
  error_class = operational_error;
  orig = none;
  connection_invalidated = true;
  text = "server closed the connection";
}

abbrev request : Request
request = record {
  path = "/me";
  state_request_id = none;
  header_request_id = some "r1";
  issuer_url = "https://id.example/realms/pet";
}

abbrev quoted_error : AuthError
quoted_error = authentication (invalid_token "Token missing \"kid\"")

quoted_error-description : is_blank (description quoted_error) ≡ false
unfolding description
quoted_error-description = refl

www_authenticate_reads_back_example :
    (tail : String) × (www_authenticate_header quoted_error request
      ≡ header_start quoted_error request +++ (", error_description=\"" +++ tail))
    × (read_quoted false tail ≡ some (description quoted_error, ""))
www_authenticate_reads_back_example =
    www_authenticate_reads_back quoted_error request quoted_error-description
