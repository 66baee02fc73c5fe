-- ===== src/Users/Tokens.antt =====
-- The tokens of sessions as they are sent, and the profile of a user (internal/services/users:
-- generateTokenAt, parseTokenUserID, Signup, Profile, GetProfile). The packages jwt and ulid are a
-- parameter.
use cv_evaluator.Prelude.{ℕ, ◌+◌, ◌/◌, Option, none, some, List, ◌==◌, is_empty, if◌then◌else◌}
use cv_evaluator.Prelude.Text.{Text, trim_space}
use cv_evaluator.Models.{second}
use cv_evaluator.Pipeline.Failure.{Result, ok, err}
use cv_evaluator.Users.{Bcrypt, User, UserError, SignupRequest, find_user, create_user}

-- jwt.RegisteredClaims, as far as the program fills them in; a time is a number of seconds.
pub record Claims : Type 0 where
  pub subject : Text
  pub issued_at : Option ℕ
  pub not_before : Option ℕ
  pub expires_at : Option ℕ

-- SignedString and ParseWithClaims for HS256 with a secret, the latter at a moment, `none` for an
-- error; ULID.String and ulid.ParseStrict.
pub record Library : Type 0 where
  pub sign : Text → Claims → Option Text
  pub parse : Text → ℕ → Text → Option Claims
  pub show : ℕ → Text
  pub parse_strict : Text → Option ℕ

-- The claims of generateTokenAt
unfoldable pub claims_at : Library → ℕ → ℕ → ℕ → Claims
claims_at lib ttl user now = record {
  subject = lib.show user;
  issued_at = some (now / second);
  not_before = some (now / second);
  expires_at = some ((now + ttl) / second);
}

-- generateTokenAt
unfoldable pub generate_token_at : Library → Text → ℕ → ℕ → ℕ → Option Text
generate_token_at lib secret ttl user now = lib.sign secret (claims_at lib ttl user now)

-- A ULID that is not the zero one
abbrev pub non_zero : Option ℕ → Option ℕ
non_zero none = none
non_zero (some id) = if id == 0 then none else some id

abbrev subject_of : Library → Option Claims → Option ℕ
subject_of lib none = none
subject_of lib (some c) = non_zero (lib.parse_strict c.subject)

-- parseTokenUserID; its one error is ErrInvalidToken
unfoldable pub parse_token_user_id : Library → Text → ℕ → Text → Option ℕ
parse_token_user_id lib secret now raw =
    if is_empty (trim_space raw) then none else subject_of lib (lib.parse secret now raw)

pub record Profile : Type 0 where
  pub id : ℕ
  pub first_name : Text
  pub last_name : Text
  pub email : Text
  pub phone : Text

-- profileFromModel
unfoldable pub profile_from_model : User → Profile
profile_from_model u = record {
  id = u.id;
  first_name = u.first_name;
  last_name = u.last_name;
  email = u.email;
  phone = u.phone;
}

abbrev profile_or : UserError → Option User → Result UserError Profile
profile_or e none = err e
profile_or e (some u) = ok (profile_from_model u)

-- GetProfile
unfoldable pub get_profile : ℕ → List User → Result UserError Profile
get_profile id rows = profile_or UserError.user_not_found (find_user id rows)

abbrev profile_of : List User → Option ℕ → Result UserError Profile
profile_of rows none = err UserError.invalid_token
profile_of rows (some id) = profile_or UserError.invalid_token (find_user id rows)

-- Profile: a token of a user that does not exist is invalid.
unfoldable pub profile : Library → Text → ℕ → Text → List User → Result UserError Profile
profile lib secret now raw rows = profile_of rows (parse_token_user_id lib secret now raw)

pub record AuthResponse : Type 0 where
  pub token : Text
  pub user : Profile

abbrev response : User → Option Text → Result UserError AuthResponse
response u none = err UserError.sign_failed
response u (some t) = ok (record { token = t; user = profile_from_model u })

abbrev signed_up :
    Library
    → Text
    → ℕ
    → ℕ
    → Result UserError User × List User
    → Result UserError AuthResponse × List User
signed_up lib secret ttl now (err e, rows) = (err e, rows)
signed_up lib secret ttl now (ok u, rows) =
    (response u (generate_token_at lib secret ttl u.id now), rows)

-- Signup. An account whose token could not be signed exists all the same.
unfoldable pub signup :
    Library
    → Text
    → ℕ
    → Bcrypt
    → ℕ
    → ℕ
    → ℕ
    → SignupRequest
    → List User
    → Result UserError AuthResponse × List User
signup lib secret ttl b salt id now r rows =
    signed_up lib secret ttl now (create_user b salt id now r rows)

abbrev created : Result UserError User × List User → Result UserError Profile × List User
created (err e, rows) = (err e, rows)
created (ok u, rows) = (ok (profile_from_model u), rows)

-- Create, which returns the fields of the profile
unfoldable pub create :
    Bcrypt → ℕ → ℕ → ℕ → SignupRequest → List User → Result UserError Profile × List User
create b salt id now r rows = created (create_user b salt id now r rows)
