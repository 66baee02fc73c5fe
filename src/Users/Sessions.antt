-- ===== src/Users/Sessions.antt =====
-- What a change of the password does to sessions and passwords.
use mathlib.Core.Path.{subst}
use cv_evaluator.Prelude.{
  ℕ, ◌/◌, ◌<◌, ◌≡◌, refl, sym, ap, Bool, true, Option, none, some, List, [], ◌∷◌, if◌then◌else◌,
  ltb, arith, Bool-cases, inl, inr,
}
use cv_evaluator.Prelude.Text.{Text}
use cv_evaluator.Prelude.Table.{update_where, first_where}
use cv_evaluator.Models.{second}
use cv_evaluator.Pipeline.Failure.{ok}
use cv_evaluator.Users.{
  Bcrypt, User, UserError, Token, token_at, has_user_id, find_user, truncate, set_password,
  change_found, change_hashed, change_password, verify_password, validate_session,
}

-- A password is accepted against every hash of it.
abbrev pub Accepts : Bcrypt → Type 0
Accepts b =
    (salt : ℕ) (password hash : Text)
    → b.hash salt password ≡ some hash
    → b.matches hash password ≡ true

first-update :
    (p : User → Bool) (f : User → User) (rows : List User) (u : User)
    → ((x : User) → p x ≡ true → p (f x) ≡ true)
    → first_where p rows ≡ some u
    → first_where p (update_where p f rows) ≡ some (f u)
unfolding first_where update_where
first-update p f [] u keeps h = absurd (ground arith)
first-update p f (r ∷ rows) u keeps h = elim (Bool-cases (p r)) [
  | inl t ↦
      let e : r ≡ u = ground arith in
      subst (λ b. first_where p ((if b then f r else r) ∷ update_where p f rows) ≡ some (f u))
        (sym t) (rw (keeps r t) (ap (λ (x : User). some (f x)) e))
  | inr n ↦
      subst (λ b. first_where p ((if b then f r else r) ∷ update_where p f rows) ≡ some (f u))
        (sym n) (rw n (first-update p f rows u keeps (ground arith)))
]

-- What a change that succeeds leaves: the token of that moment, and the user with the new hash.
abbrev Changed : Bcrypt → ℕ → ℕ → Text → List User → Token → List User → Type 0
Changed b at id hash rows t rows' =
    (t ≡ token_at id at) × ((u : User) × (find_user id rows' ≡ some (set_password at hash u)))

change_found-ok :
    (b : Bcrypt) (at id : ℕ) (current hash : Text) (rows rows' : List User) (o : Option User)
    (t : Token)
    → find_user id rows ≡ o
    → change_found b at id current hash rows o ≡ (ok t, rows')
    → Changed b at id hash rows t rows'
unfolding find_user
change_found-ok b at id current hash rows rows' none t e h = absurd (ground arith)
change_found-ok b at id current hash rows rows' (some u) t e h =
    let written : update_where (has_user_id id) (set_password at hash) rows ≡ rows' =
      ground arith in
    let token : t ≡ token_at id at = ground arith in
    (
      token,
      (
        u,
        subst (λ x. first_where (has_user_id id) x ≡ some (set_password at hash u)) written
            (first-update (has_user_id id) (set_password at hash) rows u (λ x q. q) e),
      ),
    )

change_hashed-ok :
    (b : Bcrypt) (at id : ℕ) (current : Text) (rows rows' : List User) (o : Option Text) (t : Token)
    → change_hashed b at id current rows o ≡ (ok t, rows')
    → (hash : Text) × (o ≡ some hash) × Changed b at id hash rows t rows'
change_hashed-ok b at id current rows rows' none t h = absurd (ground arith)
change_hashed-ok b at id current rows rows' (some hash) t h =
    (hash, refl, change_found-ok b at id current hash rows rows' (find_user id rows) t refl h)

module _ (b : Bcrypt) (salt now id : ℕ) (current next : Text) (rows rows' : List User) (t : Token)
    (h : change_password b salt now id current next rows ≡ (ok t, rows')) where
  changed :
      (hash : Text) × (b.hash salt next ≡ some hash) × Changed b (truncate now) id hash rows t rows'
  unfolding change_password
  changed = change_hashed-ok b (truncate now) id current rows rows' (b.hash salt next) t h

  pub validate_session-changed :
      (issued : ℕ)
      → validate_session id issued rows'
        ≡ (if ltb issued (now / second) then some UserError.session_revoked else none)
  unfolding validate_session truncate
  validate_session-changed issued =
      let (hash, _, (token, (u, found))) = changed in rw found (ground arith)

  -- After a password was changed, the token that the change returned is a valid session of the user,
  -- and every session that was issued in an earlier second is revoked.
  pub change_password-sessions :
      (t.user ≡ id)
      × (validate_session id t.issued_at rows' ≡ none)
      × ((issued : ℕ)
          → issued < now / second
          → validate_session id issued rows' ≡ some UserError.session_revoked)
  unfolding validate_session token_at truncate
  change_password-sessions =
      let (hash, _, (token, (u, found))) = changed in
      (
        ap (λ (x : Token). x.user) token,
        rw (found, token) (ground arith),
        λ issued early. rw found (ground arith),
      )

  -- After a password was changed, the new one is accepted, if bcrypt accepts a password against its
  -- own hash.
  pub change_password-verify : Accepts b → verify_password b id next rows' ≡ none
  unfolding verify_password
  change_password-verify accepts =
      let (hash, hashed, (_, (u, found))) = changed in
      let accepted = accepts salt next hash hashed in rw found (ground arith)
