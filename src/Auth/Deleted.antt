-- ===== src/Auth/Deleted.antt =====
-- Requests after the deletion of an account.
use mathlib.Core.Path.{subst}
use cv_evaluator.Prelude.{
  ℕ, ◌≡◌, ◌≢◌, refl, ap, Bool, true, false, List, [], ◌∷◌, ◌==◌, arith, Bool-cases, inl, inr,
}
use cv_evaluator.Prelude.Text.{Text}
use cv_evaluator.Prelude.Table.{exists_where, select}
use cv_evaluator.Pipeline.Failure.{ok}
use cv_evaluator.Users.{User}
use cv_evaluator.Users.Tokens.{Library}
use cv_evaluator.Account.{Database, Deleted, delete, without}
use cv_evaluator.Account.Gone.{remaining, delete-remaining}
use cv_evaluator.Auth.{AuthMethod, Answer, authenticate, auth_opts, has_account}
use cv_evaluator.Auth.Passed.{authenticate-IsPassed}

no_account :
    (user : ℕ) (users : List User)
    → has_account (without (λ (u : User). u.id == user) users) user ≡ false
unfolding exists_where select
no_account user [] = refl
no_account user (u ∷ users) = ground (arith, no_account user users)

delete-there :
    (user : ℕ) (db : Database) (report : List Deleted)
    → (delete user db).0 ≡ ok report
    → exists_where (λ (u : User). u.id == user) db.users ≡ true
unfolding delete
delete-there user db report h =
    elim (Bool-cases (exists_where (λ (u : User). u.id == user) db.users)) [
      | inl t ↦ t
      | inr f ↦ absurd (ground (arith, f))
    ]

remaining-account : (user : ℕ) (db : Database) → has_account (remaining user db).users user ≡ false
unfolding remaining
remaining-account user db = no_account user db.users

-- Once Delete has removed an account, the middleware hands no request on as that user's, whatever
-- session token or API key it holds.
pub authenticate-delete :
    (hash : Text → Text) (lib : Library) (secret : Text) (now user : ℕ) (db : Database)
    (report : List Deleted) (header : Text) (m : AuthMethod)
    → (delete user db).0 ≡ ok report
    → (authenticate (auth_opts hash now) lib secret now header (delete user db).1).0
      ≢ Answer.proceed user m
authenticate-delete hash lib secret now user db report header m h passed =
    let left : (delete user db).1 ≡ remaining user db =
      ap (λ x. x.1) (delete-remaining user db (delete-there user db report h)) in
    let p = authenticate-IsPassed hash lib secret now (delete user db).1 header user m passed in
    let here : has_account (remaining user db).users user ≡ true =
      subst (λ (d : Database). has_account d.users user ≡ true) left p.account in
    let gone = remaining-account user db in
    clash (has_account (remaining user db).users user) here gone
  where
    clash : (b : Bool) → b ≡ true → b ≡ false → ⊥
    clash b t f = ground arith
