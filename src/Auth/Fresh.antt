-- ===== src/Auth/Fresh.antt =====
-- Requests with the tokens that the users service signs, before and after a change of the password.
use cv_evaluator.Prelude.{
  ℕ, ◌+◌, ◌*◌, ◌/◌, ◌<◌, ◌≤◌, ◌≡◌, ◌≢◌, refl, ap, ◌∙◌, true, false, some, [], ◌∷◌, ◌++◌, arith,
}
use cv_evaluator.Prelude.Text.{Text, codes, text_eq, to_lower, lower_rune, trim_space, has_prefix}
use cv_evaluator.Models.{second}
use cv_evaluator.Users.Tokens.{Claims, Library, claims_at, generate_token_at}
use cv_evaluator.Account.{Database}
use cv_evaluator.Auth.{
  api_key_prefix, split_space, extract_bearer, parse_user_id, known, valid_session, claimed,
  authenticate, session_validator, auth_opts, authenticate,
}

-- What the libraries document: ParseStrict reads what String writes; a signed token is a JSON
-- object in base64, so it starts with "eyJ" and has no space around it, and Parse accepts it from
-- the time before which it is not valid until it expires, with the secret that it was signed with.
pub record IsLibrary (lib : Library) : Type 0 where
  pub strict : (id : ℕ) → lib.parse_strict (lib.show id) ≡ some id
  pub shape :
      (secret t : Text) (c : Claims)
      → lib.sign secret c ≡ some t
      → has_prefix t (codes "eyJ") ≡ true
  pub trimmed : (secret t : Text) (c : Claims) → lib.sign secret c ≡ some t → trim_space t ≡ t
  pub accepts :
      (secret t : Text) (c : Claims) (now from to : ℕ)
      → lib.sign secret c ≡ some t
      → c.not_before ≡ some from
      → c.expires_at ≡ some to
      → from * second ≤ now
      → now < to * second
      → lib.parse secret now t ≡ some c

-- The value of the header with a token
abbrev pub bearer : Text → Text
bearer t = codes "Bearer " ++ t

extract_bearer-bearer :
    (t : Text)
    → trim_space t ≡ t
    → has_prefix t (codes "eyJ") ≡ true
    → extract_bearer (bearer t) ≡ some t
unfolding extract_bearer split_space has_prefix to_lower lower_rune text_eq
extract_bearer-bearer [] e h = absurd (ground arith)
extract_bearer-bearer (c ∷ t) e h = rw e refl

not_key : (t : Text) → has_prefix t (codes "eyJ") ≡ true → has_prefix t api_key_prefix ≡ false
unfolding has_prefix
not_key [] h = refl
not_key (c ∷ t) h = ground arith

module _ (hash : Text → Text) (lib : Library) (is : IsLibrary lib) (secret : Text)
    (ttl user at now : ℕ) (t : Text) (signed : generate_token_at lib secret ttl user at ≡ some t)
    (nonzero : user ≢ 0) (after : at ≤ now) (unexpired : now < (at + ttl) / second * second) where
  abbrev claims : Claims
  claims = claims_at lib ttl user at

  signed_claims : lib.sign secret claims ≡ some t
  unfolding generate_token_at
  signed_claims = signed

  known-same : known (some user) (some (at / second)) ≡ some (user, some (at / second))
  known-same = ground arith

  parse_user_id-token : parse_user_id lib secret now t ≡ some (user, some (at / second))
  unfolding parse_user_id claims_at
  parse_user_id-token =
      let parsed : lib.parse secret now t ≡ some claims =
        is.accepts secret t claims now (at / second) ((at + ttl) / second) signed_claims refl refl
          (omega (arith, after)) unexpired in
      ap (claimed lib) parsed ∙ ap (λ o. known o (some (at / second))) (is.strict user) ∙ known-same

  -- The answer to a request with the token is the session validator's.
  pub authenticate-token :
      (db : Database)
      → authenticate (auth_opts hash now) lib secret now (bearer t) db
        ≡ (valid_session user (session_validator user (some (at / second)) db), db)
  unfolding authenticate auth_opts
  authenticate-token db =
      let shape = is.shape secret t claims signed_claims in
      let found = extract_bearer-bearer t (is.trimmed secret t claims signed_claims) shape in
      rw (found, not_key t shape, parse_user_id-token) refl
