-- ===== src/App/Errors.antt =====
-- src/pet/app/errors.py and error_mappers.py. An argument with a default is an Option: `none` leaves
-- it out.
mod Code
pub use Code.{AppErrorCode, code_text}
use fukawa.Prelude.{String, Bool, false, Option, none, some, List, [], ◌∷◌, or_else}
use fukawa.Prelude.Dict.{Dict}
use fukawa.Domain.Name.{ValidationError}

-- What the program puts into `extra`: flags, optional texts, and objects that it does not look into.
pub data Extra : Type 0 where
  flag : Bool → Extra
  optional : Option String → Extra
  other : (truthy : Bool) → Extra

pub record AppError : Type 0 where
  pub title : String
  pub code : AppErrorCode
  pub detail : Option String
  pub extra : Dict Extra

-- VALIDATION_ERROR_TITLE
abbrev pub validation_error_title : String
validation_error_title = "Validation Error"

unfoldable pub conflict : Option String → Dict Extra → AppError
conflict detail extra = record {
  title = "Conflict";
  code = AppErrorCode.conflict;
  detail = some (or_else detail "Resource already exists");
  extra = extra;
}

unfoldable pub organization_name_taken : Option String → Dict Extra → AppError
organization_name_taken detail extra = record {
  title = "Conflict";
  code = AppErrorCode.organization_name_taken;
  detail = some (or_else detail "Organization name is already taken");
  extra = extra;
}

unfoldable pub not_found : Option String → Option (Dict Extra) → AppError
not_found detail extra = record {
  title = "Not Found";
  code = AppErrorCode.not_found;
  detail = some (or_else detail "Resource not found");
  extra = or_else extra [];
}

unfoldable pub validation_error : String → Dict Extra → AppError
validation_error detail extra = record {
  title = validation_error_title;
  code = AppErrorCode.validation;
  detail = some detail;
  extra = extra;
}

unfoldable pub internal_error : Option String → Dict Extra → AppError
internal_error detail extra = record {
  title = "Internal Server Error";
  code = AppErrorCode.internal_error;
  detail = some (or_else detail "Unexpected error");
  extra = extra;
}

unfoldable pub service_unavailable : Option String → Dict Extra → AppError
service_unavailable detail extra = record {
  title = "Service Unavailable";
  code = AppErrorCode.service_unavailable;
  detail = some (or_else detail "Temporary service outage");
  extra = extra;
}

unfoldable pub unprocessable_entity : Option String → Dict Extra → AppError
unprocessable_entity detail extra = record {
  title = "Unprocessable Entity";
  code = AppErrorCode.validation;
  detail = some (or_else detail "Unprocessable Entity");
  extra = extra;
}

-- error_mappers.py
unfoldable pub translate_domain_validation_error : ValidationError → AppError
unfolding unprocessable_entity
translate_domain_validation_error e =
    unprocessable_entity (some e.message)
      (("retryable", flag false) ∷ ("cause", optional e.cause) ∷ [])
