-- ===== src/Auth/Revoked.antt =====
-- Requests with session tokens after a change of the password.
use cv_evaluator.Prelude.{
  ℕ, ◌+◌, ◌*◌, ◌/◌, ◌<◌, ◌≤◌, ◌≡◌, ◌≢◌, refl, ap, ◌∙◌, Bool, true, false, some, none, List, ltb,
  if◌then◌else◌,
}
use cv_evaluator.Prelude.Text.{Text}
use cv_evaluator.Models.{second}
use cv_evaluator.Pipeline.Failure.{ok}
use cv_evaluator.Users.{Bcrypt, UserError, User, Token, change_password}
use cv_evaluator.Users.Tokens.{Library, generate_token_at}
use cv_evaluator.Users.Sessions.{validate_session-changed}
use cv_evaluator.Account.{Database}
use cv_evaluator.Auth.{
  AuthMethod, ErrorCode, Answer, authenticate, valid_session, rejected, session_validator,
  auth_opts,
}
use cv_evaluator.Auth.Fresh.{IsLibrary, bearer, authenticate-token}

abbrev since : Bool → ℕ → Answer
since early user =
    if early
    then Answer.unauthorized ErrorCode.invalid_token
    else Answer.proceed user AuthMethod.jwt

valid_session-since :
    (user : ℕ) (early : Bool)
    → valid_session user (rejected (if early then some UserError.session_revoked else none))
      ≡ since early user
valid_session-since user true = refl
valid_session-since user false = refl

-- After a change of the password, a request with a token that the service signed for the user and
-- that has not expired is answered with a 401 if the token was issued in a second before that of the
-- change, and handed on as the user's if not; the libraries are as documented.
pub change_password-authenticate :
    (hash : Text → Text) (lib : Library) (secret : Text) (ttl user : ℕ) (b : Bcrypt)
    (salt changed : ℕ) (current next : Text) (db : Database) (users : List User) (s : Token)
    (at now : ℕ) (t : Text)
    → IsLibrary lib
    → change_password b salt changed user current next db.users ≡ (ok s, users)
    → generate_token_at lib secret ttl user at ≡ some t
    → user ≢ 0
    → at ≤ now
    → now < (at + ttl) / second * second
    → authenticate (auth_opts hash now) lib secret now (bearer t) (record db { users = users }) ≡ (
      if ltb (at / second) (changed / second)
          then Answer.unauthorized ErrorCode.invalid_token
          else Answer.proceed user AuthMethod.jwt,
      record db { users = users },
    )
unfolding session_validator
change_password-authenticate hash lib secret ttl user b salt changed current next db users s at now
      t is h signed nonzero after unexpired =
    let valid =
      validate_session-changed b salt changed user current next db.users users s h (at / second) in
    authenticate-token hash lib is secret ttl user at now t signed nonzero after unexpired
      (record db { users = users })
    ∙ ap (λ o. (valid_session user (rejected o), record db { users = users })) valid
    ∙ ap (λ a. (a, record db { users = users }))
        (valid_session-since user (ltb (at / second) (changed / second)))
