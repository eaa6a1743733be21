-- ===== src/App/Errors/Code.antt =====
-- `AppErrorCode` of src/pet/app/errors.py.
use Prim.Native.String.{String}

pub data AppErrorCode : Type 0 where
  conflict internal_error organization_name_taken : AppErrorCode
  service_unavailable validation not_found : AppErrorCode

-- the text of the StrEnum member
abbrev pub code_text : AppErrorCode → String
code_text AppErrorCode.conflict = "conflict"
code_text AppErrorCode.internal_error = "internal_error"
code_text AppErrorCode.organization_name_taken = "organization_name_taken"
code_text AppErrorCode.service_unavailable = "service_unavailable"
code_text AppErrorCode.validation = "validation_error"
code_text AppErrorCode.not_found = "not_found"
