-- ===== src/Auth/Passed.antt =====
-- Whose requests the middleware lets through.
use mathlib.Core.Path.{subst}
use cv_evaluator.Prelude.{
  ℕ, ◌≡◌, ◌≢◌, refl, List, true, Option, none, some, ◌==◌, arith, ap, sym, ◌∙◌, Bool-cases, inl,
  inr, In,
}
use cv_evaluator.Prelude.Text.{Text, has_prefix}
use cv_evaluator.Prelude.Table.{first-exists, first_where}
use cv_evaluator.Pipeline.Failure.{Result, ok, err}
use cv_evaluator.ApiKeys.{ApiKey, KeyError, verify}
use cv_evaluator.ApiKeys.Access.{Grants, verify-ok}
use cv_evaluator.Users.{User, UserError, has_user_id, find_user, validate_session, checked_session}
use cv_evaluator.Users.Tokens.{Claims, Library}
use cv_evaluator.Account.{Database}
use cv_evaluator.Auth.{
  AuthMethod, AuthError, Answer, api_key_prefix, extract_bearer, parse_user_id, known, claimed,
  valid_session, session_answer, key_answer, answered, authenticate_api_key, authenticate, rejected,
  issued_or_zero, session_validator, key_owner, has_account, key_verifier, auth_opts,
}

-- A session token for the user that passes the library's checks, and was not issued before the
-- user's password changed.
pub record IsSession (lib : Library) (secret : Text) (now : ℕ) (db : Database) (raw : Text)
    (user : ℕ) : Type 0 where
  pub claims : Claims
  pub parsed : lib.parse secret now raw ≡ some claims
  pub subject : lib.parse_strict claims.subject ≡ some user
  pub valid : validate_session user (issued_or_zero claims.issued_at) db.users ≡ none

-- A key that was created for the user and not revoked
pub record IsKey (hash : Text → Text) (db : Database) (raw : Text) (user : ℕ) : Type 0 where
  pub key : ApiKey
  pub row : In key db.api_keys
  pub grants : Grants hash (has_account db.users) raw key
  pub owner : key.user_id ≡ user

abbrev pub Proves : (Text → Text) → Library → Text → ℕ → Database → Text → ℕ → AuthMethod → Type 0
Proves hash lib secret now db raw user AuthMethod.jwt = IsSession lib secret now db raw user
Proves hash lib secret now db raw user AuthMethod.api_key = IsKey hash db raw user

known-some :
    (o : Option ℕ) (i j : Option ℕ) (user : ℕ)
    → known o i ≡ some (user, j)
    → (o ≡ some user) × (user ≢ 0) × (i ≡ j)
known-some none i j user h = absurd (ground arith)
known-some (some id) i j user h = elim (Bool-cases (id == 0)) [
  | inl t ↦ absurd (ground arith)
  | inr f ↦ let same : id ≡ user = ground arith in (ap some same, λ z. ground arith, ground arith)
]

claimed-some :
    (lib : Library) (o : Option Claims) (user : ℕ) (i : Option ℕ)
    → claimed lib o ≡ some (user, i)
    → (c : Claims) × (o ≡ some c)
      × (lib.parse_strict c.subject ≡ some user)
      × (user ≢ 0)
      × (c.issued_at ≡ i)
claimed-some lib none user i h = absurd (ground arith)
claimed-some lib (some c) user i h =
    let (s, z, e) = known-some (lib.parse_strict c.subject) c.issued_at i user h in
    (c, refl, s, z, e)

rejected-none : (o : Option UserError) → rejected o ≡ none → o ≡ none
rejected-none none h = refl
rejected-none (some UserError.session_revoked) h = absurd (ground arith)
rejected-none (some UserError.user_not_found) h = absurd (ground arith)
rejected-none (some UserError.invalid_credentials) h = absurd (ground arith)
rejected-none (some UserError.email_already_used) h = absurd (ground arith)
rejected-none (some UserError.phone_already_used) h = absurd (ground arith)
rejected-none (some UserError.incorrect_password) h = absurd (ground arith)
rejected-none (some UserError.hash_failed) h = absurd (ground arith)
rejected-none (some UserError.sign_failed) h = absurd (ground arith)
rejected-none (some UserError.invalid_token) h = absurd (ground arith)

valid_session-proceed :
    (id user : ℕ) (o : Option AuthError) (m : AuthMethod)
    → valid_session id o ≡ Answer.proceed user m
    → (o ≡ none) × (id ≡ user) × (m ≡ AuthMethod.jwt)
valid_session-proceed id user none m h = (refl, ground arith, ground arith)
valid_session-proceed id user (some AuthError.invalid_token) m h = absurd (ground arith)
valid_session-proceed id user (some AuthError.other) m h = absurd (ground arith)

-- A session is valid only of a user with an account.
has_account-valid :
    (issued user : ℕ) (users : List User)
    → validate_session user issued users ≡ none
    → has_account users user ≡ true
unfolding validate_session find_user
has_account-valid issued user users h = found (first_where (has_user_id user) users) refl h
  where
    found :
        (o : Option User)
        → first_where (has_user_id user) users ≡ o
        → checked_session issued o ≡ none
        → has_account users user ≡ true
    found none e h = absurd (ground arith)
    found (some u) e h = first-exists (has_user_id user) (has_user_id user) users u e (λ s t. t)

key_answer-proceed :
    (x : Result AuthError ℕ × Database) (user : ℕ) (m : AuthMethod)
    → (key_answer x).0 ≡ Answer.proceed user m
    → (x.0 ≡ ok user) × (user ≢ 0) × (m ≡ AuthMethod.api_key)
key_answer-proceed (err AuthError.invalid_token, s) user m h = absurd (ground arith)
key_answer-proceed (err AuthError.other, s) user m h = absurd (ground arith)
key_answer-proceed (ok id, s) user m h = elim (Bool-cases (id == 0)) [
  | inl t ↦ absurd (ground arith)
  | inr f ↦ let same : id ≡ user = ground arith in (ap ok same, λ z. ground arith, ground arith)
]

key_owner-ok : (r : Result KeyError ℕ) (user : ℕ) → key_owner r ≡ ok user → r ≡ ok user
key_owner-ok (ok id) user h = ground arith
key_owner-ok (err KeyError.invalid_key) user h = absurd (ground arith)
key_owner-ok (err KeyError.name_required) user h = absurd (ground arith)
key_owner-ok (err KeyError.name_too_long) user h = absurd (ground arith)
key_owner-ok (err KeyError.not_found) user h = absurd (ground arith)
key_owner-ok (err KeyError.duplicate) user h = absurd (ground arith)

module _ (hash : Text → Text) (lib : Library) (secret : Text) (now : ℕ) (db : Database) where
  -- A request that passed comes from a user with an account, who has proved it by the credential.
  pub record IsPassed (header : Text) (user : ℕ) (m : AuthMethod) : Type 0 where
    pub credential : Text
    pub extracted : extract_bearer header ≡ some credential
    pub non_zero : user ≢ 0
    pub account : has_account db.users user ≡ true
    pub proof : Proves hash lib secret now db credential user m

  -- The same for a credential
  abbrev Passes : Text → ℕ → AuthMethod → Type 0
  Passes raw user m =
      (user ≢ 0) × (has_account db.users user ≡ true) × Proves hash lib secret now db raw user m

  key-Passes :
      (raw : Text) (user : ℕ) (m : AuthMethod)
      → (authenticate_api_key (some (key_verifier hash now)) raw db).0 ≡ Answer.proceed user m
      → Passes raw user m
  unfolding authenticate_api_key key_verifier
  key-Passes raw user m h =
      let (owner, nonzero, method) = key_answer-proceed (key_verifier hash now raw db) user m h in
      let verified =
        key_owner-ok (verify hash (has_account db.users) now raw db.api_keys).0 user owner in
      let (k, row, grants, same) =
        verify-ok hash (has_account db.users) now user raw db.api_keys verified in
      (
        nonzero,
        ap (has_account db.users) (sym same) ∙ grants.1,
        subst (Proves hash lib secret now db raw user) (sym method)
            (record { key = k; row = row; grants = grants; owner = same }),
      )

  session-Passes :
      (raw : Text) (user : ℕ) (m : AuthMethod) (o : Option (ℕ × Option ℕ))
      → parse_user_id lib secret now raw ≡ o
      → session_answer (some session_validator) db o ≡ Answer.proceed user m
      → Passes raw user m
  unfolding parse_user_id session_validator
  session-Passes raw user m none e h = absurd (ground arith)
  session-Passes raw user m (some (id, issued)) e h =
      let (valid, same, method) =
        valid_session-proceed id user (session_validator id issued db) m h in
      let (c, parsed, subject, nonzero, at) =
        claimed-some lib (lib.parse secret now raw) id issued e in
      let valid_at = rejected-none (validate_session id (issued_or_zero issued) db.users) valid in
      subst (λ u. Passes raw u m) same
        (
          nonzero,
          has_account-valid (issued_or_zero issued) id db.users valid_at,
          subst (Proves hash lib secret now db raw id) (sym method)
              (record { claims = c; parsed = parsed; subject = subject; valid = rw at valid_at }),
        )

  answered-Passes :
      (o : Option Text) (user : ℕ) (m : AuthMethod)
      → (answered (auth_opts hash now) lib secret now db o).0 ≡ Answer.proceed user m
      → (raw : Text) × (o ≡ some raw) × Passes raw user m
  unfolding auth_opts
  answered-Passes none user m h = absurd (ground arith)
  answered-Passes (some raw) user m h = elim (Bool-cases (has_prefix raw api_key_prefix)) [
    | inl t ↦ (raw, refl, key-Passes raw user m (ground (arith, t)))
    | inr f ↦ (
      raw,
      refl,
      session-Passes raw user m (parse_user_id lib secret now raw) refl (ground (arith, f)),
    )
  ]

  -- The middleware, as cmd/api wires it, hands a request on as a user's only if the user has an
  -- account and the header holds either a token of the user that passes the library's checks and
  -- was not issued before the password changed, or an API key whose hash is that of a row of the
  -- user that was not revoked.
  pub authenticate-IsPassed :
      (header : Text) (user : ℕ) (m : AuthMethod)
      → (authenticate (auth_opts hash now) lib secret now header db).0 ≡ Answer.proceed user m
      → IsPassed header user m
  unfolding authenticate
  authenticate-IsPassed header user m h =
      let (raw, e, (nonzero, account, proof)) = answered-Passes (extract_bearer header) user m h in
      record {
        credential = raw;
        extracted = e;
        non_zero = nonzero;
        account = account;
        proof = proof;
      }
