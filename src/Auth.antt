-- ===== src/Auth.antt =====
-- internal/servers/middleware/auth.go: who a request comes from, with the adapters of servers/auth
-- and servers/apikeys and the wiring of cmd/api. `S` is the state that the verifier of keys changes.
pub mod Passed
pub mod Deleted
pub mod Fresh
pub mod Revoked
use cv_evaluator.Prelude.{
  ℕ, Bool, not, ◌||◌, Option, none, some, List, [], ◌∷◌, ◌==◌, is_empty, if◌then◌else◌,
}
use cv_evaluator.Prelude.Text.{Text, codes, text_eq, trim_space, to_lower, has_prefix}
use cv_evaluator.Prelude.Table.{exists_where}
use cv_evaluator.Pipeline.Failure.{Result, ok, err}
use cv_evaluator.ApiKeys.{ApiKey, KeyError, verify}
use cv_evaluator.Users.{User, UserError, has_user_id, validate_session}
use cv_evaluator.Users.Tokens.{Claims, Library}
use cv_evaluator.Account.{Database}

-- AuthMethodJWT, AuthMethodAPIKey
pub data AuthMethod : Type 0 where
  jwt api_key : AuthMethod

-- An error that wraps ErrInvalidToken, or another one
pub data AuthError : Type 0 where
  invalid_token other : AuthError

-- The codes of the 401 responses
pub data ErrorCode : Type 0 where
  missing_credentials invalid_token invalid_api_key : ErrorCode

-- What the middleware does: the next handler with the user and the method in the context, or a 401
-- or 500 response.
pub data Answer : Type 0 where
  proceed : ℕ → AuthMethod → Answer
  unauthorized : ErrorCode → Answer
  internal : Answer

-- authConfig. A session is validated for a user and the second at which it was issued.
pub record AuthConfig (S : Type 0) : Type 0 where
  pub api_keys : Option (Text → S → Result AuthError ℕ × S)
  pub sessions : Option (ℕ → Option ℕ → S → Option AuthError)

-- APIKeyPrefix
abbrev pub api_key_prefix : Text
api_key_prefix = codes "sk_"

abbrev prepend : ℕ → Option (Text × Text) → Option (Text × Text)
prepend c none = none
prepend c (some (a, b)) = some (c ∷ a, b)

-- strings.SplitN(header, " ", 2), `none` for one part
unfoldable pub split_space : Text → Option (Text × Text)
split_space [] = none
split_space (c ∷ s) = let rest = split_space s in if c == 32 then some ([], s) else prepend c rest

-- EqualFold is a comparison of lower-cased text, since no letter of the word has a fold outside
-- ASCII.
abbrev bearer_of : Option (Text × Text) → Option Text
bearer_of none = none
bearer_of (some (scheme, rest)) =
    if not (text_eq (to_lower scheme) (codes "bearer")) || is_empty (trim_space rest)
    then none
    else some (trim_space rest)

-- extractBearer; its one error is ErrInvalidToken
unfoldable pub extract_bearer : Text → Option Text
extract_bearer header = bearer_of (split_space header)

abbrev pub known : Option ℕ → Option ℕ → Option (ℕ × Option ℕ)
known none issued = none
known (some id) issued = if id == 0 then none else some (id, issued)

abbrev pub claimed : Library → Option Claims → Option (ℕ × Option ℕ)
claimed lib none = none
claimed lib (some c) = known (lib.parse_strict c.subject) c.issued_at

-- parseUserID at a moment
unfoldable pub parse_user_id : Library → Text → ℕ → Text → Option (ℕ × Option ℕ)
parse_user_id lib secret now raw = claimed lib (lib.parse secret now raw)

abbrev pub valid_session : ℕ → Option AuthError → Answer
valid_session user none = Answer.proceed user AuthMethod.jwt
valid_session user (some AuthError.invalid_token) = Answer.unauthorized ErrorCode.invalid_token
valid_session user (some AuthError.other) = Answer.internal

module _ {S : Type 0} where
  -- validateSession
  abbrev pub validated : Option (ℕ → Option ℕ → S → Option AuthError) → ℕ → Option ℕ → S → Answer
  validated none user issued s = Answer.proceed user AuthMethod.jwt
  validated (some v) user issued s = valid_session user (v user issued s)

  -- A credential that is not an API key
  abbrev pub session_answer :
      Option (ℕ → Option ℕ → S → Option AuthError) → S → Option (ℕ × Option ℕ) → Answer
  session_answer v s none = Answer.unauthorized ErrorCode.invalid_token
  session_answer v s (some (user, issued)) = validated v user issued s

  abbrev pub key_answer : Result AuthError ℕ × S → Answer × S
  key_answer (err AuthError.invalid_token, s) = (Answer.unauthorized ErrorCode.invalid_api_key, s)
  key_answer (err AuthError.other, s) = (Answer.internal, s)
  key_answer (ok user, s) =
      if user == 0
      then (Answer.unauthorized ErrorCode.invalid_api_key, s)
      else (Answer.proceed user AuthMethod.api_key, s)

  -- authenticateAPIKey
  unfoldable pub authenticate_api_key :
      Option (Text → S → Result AuthError ℕ × S) → Text → S → Answer × S
  authenticate_api_key none raw s = (Answer.unauthorized ErrorCode.invalid_api_key, s)
  authenticate_api_key (some v) raw s = key_answer (v raw s)

  abbrev pub answered : AuthConfig S → Library → Text → ℕ → S → Option Text → Answer × S
  answered cfg lib secret now s none = (Answer.unauthorized ErrorCode.missing_credentials, s)
  answered cfg lib secret now s (some credential) =
      if has_prefix credential api_key_prefix
      then authenticate_api_key cfg.api_keys credential s
      else (session_answer cfg.sessions s (parse_user_id lib secret now credential), s)

  -- The handler that Authenticate returns, for the header of a request
  unfoldable pub authenticate : AuthConfig S → Library → Text → ℕ → Text → S → Answer × S
  authenticate cfg lib secret now header s = answered cfg lib secret now s (extract_bearer header)

-- A session that was revoked or whose user is gone, or another error
abbrev rejected : Option UserError → Option AuthError
rejected none = none
rejected (some UserError.session_revoked) = some AuthError.invalid_token
rejected (some UserError.user_not_found) = some AuthError.invalid_token
rejected (some UserError.invalid_credentials) = some AuthError.other
rejected (some UserError.email_already_used) = some AuthError.other
rejected (some UserError.phone_already_used) = some AuthError.other
rejected (some UserError.incorrect_password) = some AuthError.other
rejected (some UserError.hash_failed) = some AuthError.other
rejected (some UserError.sign_failed) = some AuthError.other
rejected (some UserError.invalid_token) = some AuthError.other

-- The time of a claim that is absent is the zero time, which is before all others.
abbrev pub issued_or_zero : Option ℕ → ℕ
issued_or_zero none = 0
issued_or_zero (some t) = t

-- NewSessionValidator, over the users
unfoldable pub session_validator : ℕ → Option ℕ → Database → Option AuthError
session_validator user issued db = rejected (validate_session user (issued_or_zero issued) db.users)

abbrev pub key_owner : Result KeyError ℕ → Result AuthError ℕ
key_owner (ok user) = ok user
key_owner (err KeyError.invalid_key) = err AuthError.invalid_token
key_owner (err KeyError.name_required) = err AuthError.other
key_owner (err KeyError.name_too_long) = err AuthError.other
key_owner (err KeyError.not_found) = err AuthError.other
key_owner (err KeyError.duplicate) = err AuthError.other

-- Whether the user has an account
abbrev pub has_account : List User → ℕ → Bool
has_account users user = exists_where (has_user_id user) users

-- NewVerifier, over the keys
unfoldable pub key_verifier : (Text → Text) → ℕ → Text → Database → Result AuthError ℕ × Database
key_verifier hash now raw db =
    let (r, keys) = verify hash (has_account db.users) now raw db.api_keys in
    (key_owner r, record db { api_keys = keys })

-- authOpts of cmd/api
unfoldable pub auth_opts : (Text → Text) → ℕ → AuthConfig Database
auth_opts hash now = record {
  api_keys = some (key_verifier hash now);
  sessions = some session_validator;
}
