-- ===== src/Tests/Auth.antt =====
-- Requests with tokens and keys, at a library that keeps all in its tokens.
use mathlib.Core.Path.{subst}
use cv_evaluator.Prelude.{
  ℕ, ◌/◌, ◌≡◌, ◌≢◌, refl, ap, true, Option, none, some, [], ◌∷◌, ◌++◌, ◌==◌, ltb, is_empty, ◌&&◌,
  arith, if◌then◌else◌,
}
use cv_evaluator.Prelude.Text.{
  Text, codes, text_eq, has_prefix, trim_space, trim_left, trim_right, is_space, to_lower,
  lower_rune,
}
use cv_evaluator.Prelude.Table.{first_where, exists_where}
use cv_evaluator.Models.{second, hour}
use cv_evaluator.Pipeline.Failure.{ok}
use cv_evaluator.Users.{User, validate_session, find_user, truncate}
use cv_evaluator.Users.Tokens.{Claims, Library, generate_token_at, claims_at}
use cv_evaluator.Account.{Database, delete, steps, run_steps}
use cv_evaluator.Auth.{
  AuthMethod, ErrorCode, Answer, authenticate, auth_opts, extract_bearer, split_space,
  parse_user_id, session_validator,
}
use cv_evaluator.Auth.Passed.{IsPassed, authenticate-IsPassed}
use cv_evaluator.Auth.Deleted.{authenticate-delete}
use cv_evaluator.Auth.Revoked.{change_password-authenticate}
use cv_evaluator.Tests.Users.{plain, ada, changed_ada, later, token, changes}
use cv_evaluator.Auth.Fresh.{IsLibrary, bearer}

abbrev tag : Option ℕ → ℕ
tag none = 0
tag (some n) = 1

abbrev value : Option ℕ → ℕ
value none = 0
value (some n) = n

abbrev time : ℕ → ℕ → Option ℕ
time t n = if t == 0 then none else some n

time-tag : (o : Option ℕ) → time (tag o) (value o) ≡ o
time-tag none = refl
time-tag (some n) = refl

abbrev drop_last : Text → Text
drop_last [] = []
drop_last (c ∷ []) = []
drop_last (c ∷ d ∷ s) = c ∷ drop_last (d ∷ s)

drop_last-dot : (s : Text) → drop_last (s ++ codes ".") ≡ s
drop_last-dot [] = refl
drop_last-dot (c ∷ []) = refl
drop_last-dot (c ∷ d ∷ s) = ap (λ t. c ∷ t) (drop_last-dot (d ∷ s))

abbrev encode : Claims → Text
encode c =
    codes "eyJ"
    ++ (tag c.issued_at
        ∷ value c.issued_at
        ∷ tag c.not_before
        ∷ value c.not_before
        ∷ tag c.expires_at
        ∷ value c.expires_at
        ∷ (c.subject ++ codes "."))

abbrev decode : Text → Option Claims
decode (x ∷ y ∷ z ∷ a ∷ i ∷ b ∷ n ∷ d ∷ e ∷ rest) = some (record {
  subject = drop_last rest;
  issued_at = time a i;
  not_before = time b n;
  expires_at = time d e;
})
decode s = none

decode-encode : (c : Claims) → decode (encode c) ≡ some c
decode-encode c =
    rw (time-tag c.issued_at, time-tag c.not_before, time-tag c.expires_at, drop_last-dot c.subject)
      refl

abbrev read_id : Text → Option ℕ
read_id [] = none
read_id (n ∷ []) = some n
read_id (n ∷ m ∷ s) = none

abbrev lib : Library
lib = record {
  sign = λ secret c. some (encode c);
  parse = λ secret now t. decode t;
  show = λ id. id ∷ [];
  parse_strict = read_id;
}

trim_right-dot : (s : Text) → trim_right (s ++ codes ".") ≡ s ++ codes "."
unfolding trim_right is_space
trim_right-dot [] = refl
trim_right-dot (c ∷ s) = rw (trim_right-dot s) (not_empty s)
  where
    not_empty :
        (s : Text)
        → (if is_empty (s ++ codes ".") && is_space c then [] else c ∷ (s ++ codes "."))
          ≡ c ∷ (s ++ codes ".")
    not_empty [] = refl
    not_empty (d ∷ s) = refl

encode-trim_space : (c : Claims) → trim_space (encode c) ≡ encode c
unfolding trim_space trim_left is_space
encode-trim_space c = trim_right-dot (
    codes "eyJ"
    ++ (tag c.issued_at
        ∷ value c.issued_at
        ∷ tag c.not_before
        ∷ value c.not_before
        ∷ tag c.expires_at
        ∷ value c.expires_at
        ∷ c.subject))

lib-IsLibrary : IsLibrary lib
unfolding has_prefix
lib-IsLibrary = record {
  strict = λ id. refl;
  shape = λ secret t c e. subst (λ x. has_prefix x (codes "eyJ") ≡ true) (same c t e) refl;
  trimmed = λ secret t c e. subst (λ x. trim_space x ≡ x) (same c t e) (encode-trim_space c);
  accepts = λ secret t c now from to e nbf exp after before.
      subst (λ x. decode x ≡ some c) (same c t e) (decode-encode c);
}
  where
    same : (c : Claims) (t : Text) → some (encode c) ≡ some t → encode c ≡ t
    same c t e = ground arith

abbrev account : User → Database
account u = record {
  users = u ∷ [];
  cvs = [];
  sections = [];
  jobs = [];
  searches = [];
  results = [];
  store = record { evaluations = []; scores = [] };
  api_keys = [];
  suggestions = [];
}

abbrev hash : Text → Text
hash s = s

-- The token that is issued at 5.6 seconds
abbrev claims : Claims
claims = record {
  subject = 1 ∷ [];
  issued_at = some 5;
  not_before = some 5;
  expires_at = some 3605;
}

signs : generate_token_at lib (codes "s") hour 1 5_600_000_000 ≡ some (encode claims)
unfolding generate_token_at claims_at
signs = refl

passes :
    (authenticate
      (auth_opts hash 7_000_000_000)
      lib
      (codes "s")
      7_000_000_000
      (bearer (encode claims))
      (account changed_ada)).0
    ≡ Answer.proceed 1 AuthMethod.jwt
unfolding authenticate auth_opts extract_bearer split_space parse_user_id session_validator
    validate_session find_user first_where truncate has_prefix text_eq to_lower lower_rune
    trim_space trim_left trim_right is_space
passes = refl

authenticate-IsPassed_example :
    IsPassed hash lib
      (codes "s")
      7_000_000_000
      (account changed_ada)
      (bearer (encode claims))
      1
      AuthMethod.jwt
authenticate-IsPassed_example =
    authenticate-IsPassed hash lib (codes "s") 7_000_000_000 (account changed_ada)
      (bearer (encode claims)) 1 AuthMethod.jwt passes

deletes : (delete 1 (account ada)).0 ≡ ok (run_steps (steps 1) (account ada)).0
unfolding delete exists_where
deletes = refl

authenticate-delete_example :
    (authenticate
      (auth_opts hash 7_000_000_000)
      lib
      (codes "s")
      7_000_000_000
      (bearer (encode claims))
      (delete 1 (account ada)).1).0
    ≢ Answer.proceed 1 AuthMethod.jwt
authenticate-delete_example =
    authenticate-delete hash lib (codes "s") 7_000_000_000 1 (account ada)
      (run_steps (steps 1) (account ada)).0 (bearer (encode claims)) AuthMethod.jwt deletes

change_password-authenticate_example :
    authenticate
      (auth_opts hash 7_000_000_000)
      lib
      (codes "s")
      7_000_000_000
      (bearer (encode claims))
      (account changed_ada)
    ≡ (
      if ltb (5_600_000_000 / second) (later / second)
          then Answer.unauthorized ErrorCode.invalid_token
          else Answer.proceed 1 AuthMethod.jwt,
      account changed_ada,
    )
change_password-authenticate_example =
    change_password-authenticate hash lib (codes "s") hour 1 plain 0 later (codes "secret")
      (codes "better") (account ada) (changed_ada ∷ []) token 5_600_000_000 7_000_000_000
      (encode claims) lib-IsLibrary changes signs (λ e. absurd (omega (arith, e))) (omega arith)
      (omega arith)

-- A token that was issued before the change is refused.
abbrev early_claims : Claims
early_claims = record {
  subject = 1 ∷ [];
  issued_at = some 4;
  not_before = some 4;
  expires_at = some 3604;
}

refuses :
    (authenticate
      (auth_opts hash 7_000_000_000)
      lib
      (codes "s")
      7_000_000_000
      (bearer (encode early_claims))
      (account changed_ada)).0
    ≡ Answer.unauthorized ErrorCode.invalid_token
unfolding authenticate auth_opts extract_bearer split_space parse_user_id session_validator
    validate_session find_user first_where truncate has_prefix text_eq to_lower lower_rune
    trim_space trim_left trim_right is_space
refuses = refl
