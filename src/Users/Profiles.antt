-- ===== src/Users/Profiles.antt =====
-- A change of the profile keeps the emails apart.
use mathlib.Core.Path.{subst}
use cv_evaluator.Prelude.{
  ℕ, ◌≤◌, ◌≡◌, refl, ap, Bool, true, false, Option, none, some, List, [], ◌∷◌, if◌then◌else◌, arith,
  Bool-cases, inl, inr,
}
use cv_evaluator.Prelude.Text.{Text, text_eq, text_eq→eq}
use cv_evaluator.Prelude.Table.{count_where, first_where, exists_where, update_where}
use cv_evaluator.Pipeline.Failure.{Result, ok, err}
use cv_evaluator.Users.{
  User, UserError, UpdateProfileRequest, has_email, has_user_id, find_user, taken, email_taken,
  set_profile, lowered, profile_found, update_profile, phone_taken, is_unchanged, trimmed,
  create_user, SignupRequest, Bcrypt,
}
use cv_evaluator.Users.Emails.{HasUniqueEmails, create_user_unique}

abbrev table : Result UserError User × List User → List User
table x = x.1

-- At most one row that is not deleted has the id.
abbrev pub HasUniqueId : ℕ → List User → Type 0
HasUniqueId id rows = count_where (has_user_id id) rows ≤ 1

module _ (at id : ℕ) (r : UpdateProfileRequest) (u : User) where
  abbrev written : List User → List User
  written = update_where (has_user_id id) (set_profile at r u)

  abbrev new_email : Text
  new_email = lowered u.email r.email

  -- An email that the account does not get is no commoner than before.
  count-other :
      (e : Text) (rows : List User)
      → text_eq new_email e ≡ false
      → count_where (has_email e) (written rows) ≤ count_where (has_email e) rows
  unfolding count_where update_where
  count-other e [] n = omega arith
  count-other e (x ∷ rows) n = ground (arith, count-other e rows n)

  -- The new email is on the account's row, and on no other.
  count-new :
      (rows : List User)
      → taken (λ (x : User). x.email) id new_email rows ≡ false
      → count_where (has_email new_email) (written rows) ≤ count_where (has_user_id id) rows
  unfolding count_where update_where taken exists_where
  count-new [] n = omega arith
  count-new (x ∷ rows) n = ground (arith, count-new rows)

  -- Without the account in the table nothing is written.
  count-absent :
      (e : Text) (rows : List User)
      → count_where (has_user_id id) rows ≡ 0
      → count_where (has_email e) (written rows) ≡ count_where (has_email e) rows
  unfolding count_where update_where
  count-absent e [] n = refl
  count-absent e (x ∷ rows) n = ground (arith, count-absent e rows)

  -- An email that the account has and keeps is as common as before.
  count-kept :
      (e : Text) (rows : List User)
      → first_where (has_user_id id) rows ≡ some u
      → HasUniqueId id rows
      → new_email ≡ u.email
      → count_where (has_email e) (written rows) ≡ count_where (has_email e) rows
  unfolding count_where update_where first_where
  count-kept e [] found one same = absurd (ground arith)
  count-kept e (x ∷ rows) found one same = elim (Bool-cases (has_user_id id x)) [
    | inl t ↦
        let is_u : x ≡ u = ground arith in
        let email : x.email ≡ u.email = ap (λ (y : User). y.email) is_u in
        let deleted : x.deleted_at ≡ u.deleted_at = ap (λ (y : User). y.deleted_at) is_u in
        ground (arith, count-absent e rows)
    | inr f ↦ ground (arith, count-kept e rows)
  ]

  profile_unique :
      (rows : List User)
      → find_user id rows ≡ some u
      → HasUniqueId id rows
      → email_taken id u new_email rows ≡ false
      → HasUniqueEmails rows
      → HasUniqueEmails (written rows)
  unfolding find_user
  profile_unique rows found one free unique e = elim (Bool-cases (text_eq new_email u.email)) [
    | inl same ↦
        let kept = count-kept e rows found one (text_eq→eq new_email u.email same) in
        omega (arith, kept, unique e)
    | inr changed ↦ elim (Bool-cases (text_eq new_email e)) [
      | inr other ↦ omega (arith, count-other e rows other, unique e)
      | inl new ↦
          let here = count-new rows (ground arith) in
          subst (λ x. count_where (has_email x) (written rows) ≤ 1) (text_eq→eq new_email e new)
            (omega (arith, here, one))
    ]
  ]

profile_found_unique :
    (at id : ℕ) (r : UpdateProfileRequest) (rows : List User) (o : Option User)
    → find_user id rows ≡ o
    → HasUniqueId id rows
    → HasUniqueEmails rows
    → HasUniqueEmails (profile_found at id r rows o).1
profile_found_unique at id r rows none found one unique = unique
profile_found_unique at id r rows (some u) found one unique =
    elim (Bool-cases (email_taken id u (lowered u.email r.email) rows)) [
      | inl t ↦ rw t unique
      | inr free ↦ rw free (
          unless_phone (phone_taken id u (trimmed u.phone r.phone) rows) (is_unchanged r)
            (profile_unique at id r u rows found one free unique))
    ]
  where
    unless_phone :
        (b c : Bool)
        → HasUniqueEmails (update_where (has_user_id id) (set_profile at r u) rows)
        → HasUniqueEmails (
            table (
              if b then (err UserError.phone_already_used, rows) else if c then (ok u, rows) else (
                ok (set_profile at r u u),
                update_where (has_user_id id) (set_profile at r u) rows,
              )))
    unless_phone true c h = unique
    unless_phone false true h = unique
    unless_phone false false h = h

-- A sign-up and a change of a profile, whether they succeed or not, leave no two accounts with the
-- same email, if there were none before, the changed account's id stands in one row at most, and
-- nothing else happens at the same time.
pub emails_unique :
    (b : Bcrypt) (salt id now : ℕ) (s : SignupRequest) (r : UpdateProfileRequest) (rows : List User)
    → HasUniqueId id rows
    → HasUniqueEmails rows
    → HasUniqueEmails (create_user b salt id now s rows).1
      × HasUniqueEmails (update_profile now id r rows).1
unfolding update_profile
emails_unique b salt id now s r rows one unique = (
  create_user_unique b salt id now s rows unique,
  profile_found_unique now id r rows (find_user id rows) refl one unique,
)
