-- ===== src/Users/Emails.antt =====
-- Accounts have different emails, and a new one can sign in.
use mathlib.Core.Path.{subst}
use cv_evaluator.Prelude.{
  ℕ, ◌≤◌, ◌≡◌, refl, false, ◌||◌, Option, none, some, List, [], ◌∷◌, is_empty, arith, Bool-cases,
  inl, inr,
}
use cv_evaluator.Prelude.Text.{Text, text_eq_refl, text_eq→eq, trim_space, to_lower}
use cv_evaluator.Prelude.Table.{count_where, first_where}
use cv_evaluator.Pipeline.Failure.{ok}
use cv_evaluator.Users.{
  Bcrypt, User, SignupRequest, has_email, is_taken_by, new_user, insert_user, looked_up,
  create_user, token_at, signin,
}
use cv_evaluator.Users.Sessions.{Accepts}

-- No two accounts that exist have the same email.
abbrev pub HasUniqueEmails : List User → Type 0
HasUniqueEmails rows = (email : Text) → count_where (has_email email) rows ≤ 1

free_email :
    (email phone : Text) (rows : List User)
    → first_where (is_taken_by email phone) rows ≡ none
    → count_where (has_email email) rows ≡ 0
unfolding first_where count_where
free_email email phone [] h = refl
free_email email phone (u ∷ rows) h = ground (arith, free_email email phone rows)

unique-insert_user :
    (id now : ℕ) (r : SignupRequest) (rows : List User) (o : Option Text)
    → count_where (has_email (trim_space (to_lower r.email))) rows ≡ 0
    → HasUniqueEmails rows
    → HasUniqueEmails (insert_user id now r rows o).1
unfolding count_where
unique-insert_user id now r rows none free unique = unique
unique-insert_user id now r rows (some h) free unique =
    λ email. ground (arith, unique email, text_eq→eq (trim_space (to_lower r.email)) email, free)

unique-looked_up :
    (b : Bcrypt) (salt id now : ℕ) (r : SignupRequest) (rows : List User) (o : Option User)
    → first_where (is_taken_by (trim_space (to_lower r.email)) (trim_space r.phone)) rows ≡ o
    → HasUniqueEmails rows
    → HasUniqueEmails (looked_up b salt id now r rows o).1
unique-looked_up b salt id now r rows (some u) e unique = unique
unique-looked_up b salt id now r rows none e unique =
    unique-insert_user id now r rows (b.hash salt r.password)
      (free_email (trim_space (to_lower r.email)) (trim_space r.phone) rows e) unique

-- A sign-up, whether it succeeds or not, leaves no two accounts with the same email, if there were
-- none before and no other sign-up runs at the same time.
pub create_user_unique :
    (b : Bcrypt) (salt id now : ℕ) (r : SignupRequest) (rows : List User)
    → HasUniqueEmails rows
    → HasUniqueEmails (create_user b salt id now r rows).1
unfolding create_user
create_user_unique b salt id now r rows unique =
    elim (Bool-cases (is_empty (trim_space (to_lower r.email)) || is_empty r.password)) [
      | inl t ↦ rw t unique
      | inr f ↦ rw f (
          unique-looked_up b salt id now r rows
            (first_where (is_taken_by (trim_space (to_lower r.email)) (trim_space r.phone)) rows)
            refl unique)
    ]

insert_user-ok :
    (id now : ℕ) (r : SignupRequest) (rows rows' : List User) (o : Option Text) (u : User)
    → insert_user id now r rows o ≡ (ok u, rows')
    → (h : Text) × (o ≡ some h) × (new_user id now r h ≡ u) × (new_user id now r h ∷ rows ≡ rows')
insert_user-ok id now r rows rows' none u h = absurd (ground arith)
insert_user-ok id now r rows rows' (some x) u h = (x, refl, ground arith, ground arith)

looked_up-ok :
    (b : Bcrypt) (salt id now : ℕ) (r : SignupRequest) (rows rows' : List User) (o : Option User)
    (u : User)
    → looked_up b salt id now r rows o ≡ (ok u, rows')
    → insert_user id now r rows (b.hash salt r.password) ≡ (ok u, rows')
looked_up-ok b salt id now r rows rows' none u h = h
looked_up-ok b salt id now r rows rows' (some x) u h = absurd (ground arith)

-- An account that was just created can sign in with the email and the password that it was created
-- with, in whatever letter case and with whatever space around the email, and the session is that
-- account's, if bcrypt accepts a password against its own hash.
pub signin-create_user :
    (b : Bcrypt) (salt id now later : ℕ) (r : SignupRequest) (rows rows' : List User) (u : User)
    (email : Text)
    → Accepts b
    → create_user b salt id now r rows ≡ (ok u, rows')
    → trim_space (to_lower email) ≡ trim_space (to_lower r.email)
    → signin b later email r.password rows' ≡ ok (token_at id later)
unfolding create_user signin first_where
signin-create_user b salt id now later r rows rows' u email accepts h same =
    let filled : is_empty (trim_space (to_lower r.email)) || is_empty r.password ≡ false =
      ground arith in
    let found =
      first_where (is_taken_by (trim_space (to_lower r.email)) (trim_space r.phone)) rows in
    let inserted : looked_up b salt id now r rows found ≡ (ok u, rows') = ground arith in
    let (x, hashed, _, written) =
      insert_user-ok id now r rows rows' (b.hash salt r.password) u
        (looked_up-ok b salt id now r rows rows' found u inserted) in
    let accepted = accepts salt r.password x hashed in
    subst (λ y. signin b later email r.password y ≡ ok (token_at id later)) written
      (rw (same, text_eq_refl (trim_space (to_lower r.email))) (ground (arith, filled, accepted)))
