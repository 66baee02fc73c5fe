-- ===== src/Tests/Users.antt =====
-- A sign-up, a sign-in, and a change of the password.
use cv_evaluator.Prelude.{ℕ, ◌≡◌, refl, none, some, [], ◌∷◌, arith}
use cv_evaluator.Prelude.Text.{
  codes, text_eq, text_eq_refl, to_lower, lower_rune, trim_space, trim_left, trim_right, is_space,
}
use cv_evaluator.Prelude.Table.{exists_where, first_where, update_where, count_where}
use cv_evaluator.Pipeline.Failure.{ok}
use cv_evaluator.Users.{
  UpdateProfileRequest, update_profile, taken, Bcrypt, User, SignupRequest, Token, create_user,
  signin, token_at, truncate, find_user, change_password,
}
use cv_evaluator.Users.Sessions.{Accepts}
use cv_evaluator.Users.Emails.{HasUniqueEmails, signin-create_user}
use cv_evaluator.Users.Profiles.{HasUniqueId, emails_unique}

-- A hash that keeps all.
abbrev pub plain : Bcrypt
plain = record { hash = λ salt p. some p; matches = text_eq }

plain-Accepts : Accepts plain
plain-Accepts salt p h e = ground (arith, text_eq_refl p)

abbrev request : SignupRequest
request = record {
  first_name = codes "Ada";
  last_name = codes "Byron";
  email = codes " Ada@example.org";
  phone = [];
  password = codes "secret";
}

abbrev pub ada : User
ada = record {
  id = 1;
  created_at = 10;
  updated_at = 10;
  deleted_at = none;
  first_name = codes "Ada";
  last_name = codes "Byron";
  email = codes "ada@example.org";
  phone = [];
  password = codes "secret";
  password_changed_at = none;
}

signs_up : create_user plain 0 1 10 request [] ≡ (ok ada, ada ∷ [])
unfolding create_user first_where to_lower lower_rune trim_space trim_left trim_right is_space
signs_up = refl

same_email :
    trim_space (to_lower (codes "ADA@example.org"))
    ≡ trim_space (to_lower (codes " Ada@example.org"))
unfolding to_lower lower_rune trim_space trim_left trim_right is_space
same_email = refl

signin-create_user_example :
    signin plain 20 (codes "ADA@example.org") (codes "secret") (ada ∷ []) ≡ ok (token_at 1 20)
signin-create_user_example =
    signin-create_user plain 0 1 10 20 request [] (ada ∷ []) ada (codes "ADA@example.org")
      plain-Accepts signs_up same_email

abbrev pub later : ℕ
later = 5_500_000_000

abbrev pub changed_ada : User
changed_ada = record ada {
  password = codes "better";
  password_changed_at = some 5_000_000_000;
  updated_at = 5_000_000_000;
}

abbrev pub token : Token
token = record { user = 1; issued_at = 5 }

pub changes :
    change_password plain 0 later 1 (codes "secret") (codes "better") (ada ∷ [])
    ≡ (ok token, changed_ada ∷ [])
unfolding change_password find_user first_where update_where token_at truncate text_eq
changes = refl

abbrev move : UpdateProfileRequest
move = record {
  first_name = none;
  last_name = none;
  email = some (codes "ADA@example.com ");
  phone = none;
}

moves : update_profile 30 1 move (ada ∷ []) ≡ (
  ok (record ada { email = codes "ada@example.com"; updated_at = 30 }),
  record ada { email = codes "ada@example.com"; updated_at = 30 } ∷ [],
)
unfolding update_profile find_user taken first_where exists_where update_where text_eq to_lower
    lower_rune trim_space trim_left trim_right is_space
moves = refl

only_ada : HasUniqueId 1 (ada ∷ [])
unfolding count_where
only_ada = omega arith

ada_unique : HasUniqueEmails (ada ∷ [])
unfolding count_where
ada_unique email = ground arith

emails_unique_example :
    HasUniqueEmails (create_user plain 0 1 30 request (ada ∷ [])).1
    × HasUniqueEmails (update_profile 30 1 move (ada ∷ [])).1
emails_unique_example = emails_unique plain 0 1 30 request move (ada ∷ []) only_ada ada_unique
