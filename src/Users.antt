-- ===== src/Users.antt =====
-- internal/services/users: accounts, passwords and sessions. bcrypt is a parameter; a session token
-- is what its signature protects, the user and the second at which it was issued.
pub mod Sessions
pub mod Emails
pub mod Profiles
pub mod Tokens
pub mod Cvs
use cv_evaluator.Prelude.{
  ℕ, ◌+◌, ◌-◌, ◌*◌, ◌/◌, ◌%◌, Bool, true, false, not, ◌&&◌, ◌||◌, Option, none, some, List, [], ◌∷◌,
  ltb, ◌==◌, is_empty, if◌then◌else◌,
}
use cv_evaluator.Prelude.Text.{Text, text_eq, trim_space, to_lower}
use cv_evaluator.Prelude.Table.{update_where, first_where, exists_where}
use cv_evaluator.Models.{is_live, second}
use cv_evaluator.Pipeline.Failure.{Result, ok, err}

-- GenerateFromPassword, with the salt that it draws, and CompareHashAndPassword
pub record Bcrypt : Type 0 where
  pub hash : ℕ → Text → Option Text
  pub matches : Text → Text → Bool

-- models.User
pub record User : Type 0 where
  pub id : ℕ
  pub created_at : ℕ
  pub updated_at : ℕ
  pub deleted_at : Option ℕ
  pub first_name : Text
  pub last_name : Text
  pub email : Text
  pub phone : Text
  pub password : Text
  pub password_changed_at : Option ℕ

pub data UserError : Type 0 where
  invalid_credentials email_already_used phone_already_used user_not_found : UserError
  incorrect_password session_revoked hash_failed sign_failed invalid_token : UserError

pub record SignupRequest : Type 0 where
  pub first_name : Text
  pub last_name : Text
  pub email : Text
  pub phone : Text
  pub password : Text

abbrev pub has_email : Text → User → Bool
has_email email u = text_eq u.email email && is_live u.deleted_at

-- email = ? OR phone = ?, the latter for a phone that is given
abbrev pub is_taken_by : Text → Text → User → Bool
is_taken_by email phone u =
    (text_eq u.email email || (not (is_empty phone) && text_eq u.phone phone))
    && is_live u.deleted_at

-- The error for the account that has the email or the phone. Both emails are lower-cased.
unfoldable pub conflict : Text → Text → User → UserError
conflict email phone u =
    if text_eq u.email email
    then UserError.email_already_used
    else if not (is_empty phone) && text_eq u.phone phone
    then UserError.phone_already_used
    else UserError.email_already_used

abbrev new_user : ℕ → ℕ → SignupRequest → Text → User
new_user id now r hash = record {
  id = id;
  created_at = now;
  updated_at = now;
  deleted_at = none;
  first_name = trim_space r.first_name;
  last_name = trim_space r.last_name;
  email = trim_space (to_lower r.email);
  phone = trim_space r.phone;
  password = hash;
  password_changed_at = none;
}

abbrev pub Reply : Type 0
Reply = Result UserError User × List User

abbrev insert_user : ℕ → ℕ → SignupRequest → List User → Option Text → Reply
insert_user id now r rows none = (err UserError.hash_failed, rows)
insert_user id now r rows (some h) = (ok (new_user id now r h), new_user id now r h ∷ rows)

abbrev looked_up : Bcrypt → ℕ → ℕ → ℕ → SignupRequest → List User → Option User → Reply
looked_up b salt id now r rows none = insert_user id now r rows (b.hash salt r.password)
looked_up b salt id now r rows (some u) =
    (err (conflict (trim_space (to_lower r.email)) (trim_space r.phone) u), rows)

-- createUser; the lookup and the insertion are one step
unfoldable pub create_user : Bcrypt → ℕ → ℕ → ℕ → SignupRequest → List User → Reply
create_user b salt id now r rows =
    if is_empty (trim_space (to_lower r.email)) || is_empty r.password
    then (err UserError.invalid_credentials, rows)
    else looked_up b salt id now r rows
        (first_where (is_taken_by (trim_space (to_lower r.email)) (trim_space r.phone)) rows)

-- A session token, and generateTokenAt: its times have a precision of a second.
pub record Token : Type 0 where
  pub user : ℕ
  pub issued_at : ℕ

unfoldable pub token_at : ℕ → ℕ → Token
token_at user now = record { user = user; issued_at = now / second }

abbrev signed_in : Bcrypt → ℕ → Text → Option User → Result UserError Token
signed_in b now password none = err UserError.invalid_credentials
signed_in b now password (some u) =
    if b.matches u.password password
    then ok (token_at u.id now)
    else err UserError.invalid_credentials

-- Signin
unfoldable pub signin : Bcrypt → ℕ → Text → Text → List User → Result UserError Token
signin b now email password rows =
    if is_empty (trim_space (to_lower email)) || is_empty password
    then err UserError.invalid_credentials
    else signed_in b now password (first_where (has_email (trim_space (to_lower email))) rows)

abbrev pub has_user_id : ℕ → User → Bool
has_user_id id u = u.id == id && is_live u.deleted_at

-- WHERE id = ?, among the rows that are not deleted
unfoldable pub find_user : ℕ → List User → Option User
find_user id rows = first_where (has_user_id id) rows

-- t.Truncate(time.Second)
unfoldable pub truncate : ℕ → ℕ
truncate t = t / second * second

abbrev set_password : ℕ → Text → User → User
set_password at hash u = record u {
  password = hash;
  password_changed_at = some at;
  updated_at = at;
}

-- The transaction of ChangePassword, on the user that it has read
abbrev change_found :
    Bcrypt → ℕ → ℕ → Text → Text → List User → Option User → Result UserError Token × List User
change_found b at id current hash rows none = (err UserError.user_not_found, rows)
change_found b at id current hash rows (some u) =
    if b.matches u.password current
    then (ok (token_at id at), update_where (has_user_id id) (set_password at hash) rows)
    else (err UserError.incorrect_password, rows)

abbrev change_hashed :
    Bcrypt → ℕ → ℕ → Text → List User → Option Text → Result UserError Token × List User
change_hashed b at id current rows none = (err UserError.hash_failed, rows)
change_hashed b at id current rows (some hash) =
    change_found b at id current hash rows (find_user id rows)

-- ChangePassword
unfoldable pub change_password :
    Bcrypt → ℕ → ℕ → ℕ → Text → Text → List User → Result UserError Token × List User
change_password b salt now id current next rows =
    change_hashed b (truncate now) id current rows (b.hash salt next)

abbrev checked_password : Bcrypt → Text → Option User → Option UserError
checked_password b password none = some UserError.user_not_found
checked_password b password (some u) =
    if b.matches u.password password then none else some UserError.incorrect_password

-- VerifyPassword: `none` for no error
unfoldable pub verify_password : Bcrypt → ℕ → Text → List User → Option UserError
verify_password b id password rows = checked_password b password (find_user id rows)

abbrev revoked_by : ℕ → Option ℕ → Bool
revoked_by issued none = false
revoked_by issued (some t) = ltb (issued * second) (truncate t)

abbrev pub checked_session : ℕ → Option User → Option UserError
checked_session issued none = some UserError.user_not_found
checked_session issued (some u) =
    if revoked_by issued u.password_changed_at then some UserError.session_revoked else none

-- ValidateSession: `none` for no error
unfoldable pub validate_session : ℕ → ℕ → List User → Option UserError
validate_session id issued rows = checked_session issued (find_user id rows)

pub record UpdateProfileRequest : Type 0 where
  pub first_name : Option Text
  pub last_name : Option Text
  pub email : Option Text
  pub phone : Option Text

abbrev trimmed : Text → Option Text → Text
trimmed old none = old
trimmed old (some t) = trim_space t

abbrev lowered : Text → Option Text → Text
lowered old none = old
lowered old (some t) = to_lower (trim_space t)

-- taken: whether another account has the value in the column
unfoldable pub taken : (User → Text) → ℕ → Text → List User → Bool
taken column id value =
    exists_where (λ u. (text_eq (column u) value && not (u.id == id)) && is_live u.deleted_at)

-- if email != updated.Email
abbrev email_taken : ℕ → User → Text → List User → Bool
email_taken id u email rows = not (text_eq email u.email) && taken (λ x. x.email) id email rows

-- if phone != "" && phone != updated.Phone
abbrev phone_taken : ℕ → User → Text → List User → Bool
phone_taken id u phone rows =
    (not (is_empty phone) && not (text_eq phone u.phone)) && taken (λ x. x.phone) id phone rows

-- The columns that UpdateProfile sets; `u` is the row as it was read and locked, so that a column
-- that is not sent keeps its value.
abbrev set_profile : ℕ → UpdateProfileRequest → User → User → User
set_profile at r u x = record x {
  first_name = trimmed u.first_name r.first_name;
  last_name = trimmed u.last_name r.last_name;
  email = lowered u.email r.email;
  phone = trimmed u.phone r.phone;
  updated_at = at;
}

abbrev is_nothing : Option Text → Bool
is_nothing none = true
is_nothing (some t) = false

abbrev is_unchanged : UpdateProfileRequest → Bool
is_unchanged r =
    (is_nothing r.first_name && is_nothing r.last_name)
    && (is_nothing r.email && is_nothing r.phone)

abbrev profile_found :
    ℕ → ℕ → UpdateProfileRequest → List User → Option User → Result UserError User × List User
profile_found at id r rows none = (err UserError.user_not_found, rows)
profile_found at id r rows (some u) =
    if email_taken id u (lowered u.email r.email) rows
    then (err UserError.email_already_used, rows)
    else if phone_taken id u (trimmed u.phone r.phone) rows
    then (err UserError.phone_already_used, rows)
    else if is_unchanged r
    then (ok u, rows)
    else (ok (set_profile at r u u), update_where (has_user_id id) (set_profile at r u) rows)

-- UpdateProfile. A field that is not sent is not checked: it is what it was.
unfoldable pub update_profile :
    ℕ → ℕ → UpdateProfileRequest → List User → Result UserError User × List User
update_profile at id r rows = profile_found at id r rows (find_user id rows)
