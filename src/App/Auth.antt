-- ===== src/App/Auth.antt =====
-- src/pet/app/auth/exc.py: the failures of authentication and of authorization. A class is a
-- constructor, the class attributes are functions.
use fukawa.Prelude.{String}

-- AuthenticationError and its subclasses, which map to 401
pub data AuthenticationError : Type 0 where
  missing_token : AuthenticationError
  invalid_token : (description : String) → AuthenticationError
  token_verification_unavailable : (message : String) → AuthenticationError

-- AuthorizationError and its subclass, which map to 403
pub data AuthorizationError : Type 0 where
  insufficient_permissions : (description : String) → AuthorizationError

-- AuthError
pub data AuthError : Type 0 where
  authentication : AuthenticationError → AuthError
  authorization : AuthorizationError → AuthError

unfoldable pub error_code : AuthError → String
error_code (authentication missing_token) = "invalid_request"
error_code (authentication (invalid_token _)) = "invalid_token"
error_code (authentication (token_verification_unavailable _)) = "temporarily_unavailable"
error_code (authorization (insufficient_permissions _)) = "insufficient_scope"

-- the message that TokenVerificationUnavailable is raised with is not its description
unfoldable pub description : AuthError → String
description (authentication missing_token) = "Authorization header with a Bearer token is required"
description (authentication (invalid_token d)) = d
description (authentication (token_verification_unavailable _)) =
    "Token verification is temporarily unavailable"
description (authorization (insufficient_permissions d)) = d
