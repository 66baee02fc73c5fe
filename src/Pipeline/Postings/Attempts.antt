-- ===== src/Pipeline/Postings/Attempts.antt =====
-- How often a portal is searched.
use mathlib.Core.Path.{subst}
use native.Mathlib.Decide.{dec_lt}
use cv_evaluator.Prelude.{ℕ, zero, suc, ◌+◌, ◌-◌, ◌≤◌, ◌<◌, ◌≡◌, refl, false, none, List, arith}
use cv_evaluator.Prelude.Text.{codes}
use cv_evaluator.Pipeline.Config.{Config}
use cv_evaluator.Pipeline.Failure.{ForeignError, ok, err, wrap}
use cv_evaluator.Pipeline.Postings.{JobPost, SearchEnv, search_from, search_portal}

-- The process is not shutting down.
abbrev pub IsRunning : SearchEnv → Type 0
IsRunning v = (n : ℕ) → (v.cancelled n ≡ false) × (v.sleep n ≡ none)

abbrev pub FailsAt : SearchEnv → ℕ → Type 0
FailsAt v n = (e : ForeignError) × (v.answer n ≡ err e)

module _ (v : SearchEnv) (running : IsRunning v) where
  search_from-ok :
      (left n m : ℕ) (posts : List JobPost)
      → n ≤ m
      → m ≤ n + left
      → v.answer m ≡ ok posts
      → ((k : ℕ) → n ≤ k → k < m → FailsAt v k)
      → search_from v left n ≡ ok posts
  unfolding search_from
  search_from-ok zero n m posts a b h fails =
      let now : m ≡ n = omega arith in
      let h' = subst (λ x. v.answer x ≡ ok posts) now h in rw h' refl
  search_from-ok (suc left) n m posts a b h fails = elim (dec_lt n m) [
    | yes later ↦
        let (e, f) = fails n (omega arith) later in
        rw (f, (running n).0, (running n).1)
          (search_from-ok left (n + 1) m posts (omega arith) (omega arith) h
            (λ k q r. fails k (omega arith) r))
    | no here ↦
        let now : m ≡ n = omega arith in
        let h' = subst (λ x. v.answer x ≡ ok posts) now h in rw h' refl
  ]

  search_from-err :
      (left n last : ℕ)
      → n + left ≡ last
      → ((k : ℕ) → n ≤ k → k ≤ last → FailsAt v k)
      → (e : ForeignError) × (v.answer last ≡ err e)
        × (search_from v left n ≡ err (wrap (codes "search: ") e))
  unfolding search_from
  search_from-err zero n last q fails =
      let (e, f) = fails n (omega arith) (omega arith) in
      let same : n ≡ last = omega arith in (e, subst (λ x. v.answer x ≡ err e) same f, rw f refl)
  search_from-err (suc left) n last q fails =
      let (e, f) = fails n (omega arith) (omega arith) in
      let (e', at, g) =
        search_from-err left (n + 1) last (omega arith) (λ k a b. fails k (omega arith) b) in
      (e', at, rw (f, (running n).0, (running n).1) g)

-- While the process is not shutting down, the search of a portal gives the postings of the first
-- attempt that succeeds, of as many attempts as are configured, and if none does the error of the
-- last one. At least one attempt is configured.
pub search_portal_lem :
    (c : Config) (v : SearchEnv)
    → 0 < c.portal_attempts
    → IsRunning v
    → ((m : ℕ) (posts : List JobPost)
        → 1 ≤ m
        → m ≤ c.portal_attempts
        → v.answer m ≡ ok posts
        → ((k : ℕ) → 1 ≤ k → k < m → FailsAt v k)
        → search_portal c v ≡ ok posts)
      × (((k : ℕ) → 1 ≤ k → k ≤ c.portal_attempts → FailsAt v k)
          → (e : ForeignError) × (v.answer c.portal_attempts ≡ err e)
            × (search_portal c v ≡ err (wrap (codes "search: ") e)))
unfolding search_portal
search_portal_lem c v some_attempt running = (
  λ m posts a b h fails.
      search_from-ok v running (c.portal_attempts - 1) 1 m posts a (omega arith) h fails,
  λ fails.
      search_from-err v running (c.portal_attempts - 1) 1 c.portal_attempts (omega arith) fails,
)
