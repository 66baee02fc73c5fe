-- ===== src/Pipeline/Limiter/Penalty.antt =====
-- The penalty of a portal that keeps failing.
use native.Mathlib.Nat.{pow-suc}
use cv_evaluator.Prelude.{
  ℕ, suc, ◌+◌, ◌*◌, ◌^◌, ◌≤◌, ◌<◌, min, ◌≡◌, refl, ap, ◌∙◌, false, some, List, [], ◌∷◌, ◌==◌, arith,
  length, All,
}
use cv_evaluator.Prelude.Text.{Text, text_eq_refl}
use cv_evaluator.Prelude.Int.{le_i64-leb, double_i64_lem}
use cv_evaluator.Pipeline.Backoff.{pow_pos}
use cv_evaluator.Pipeline.Failure.{ForeignError}
use cv_evaluator.Pipeline.Limiter.{
  Options, RateLimiter, ProviderState, interval, state, reserve, raise_penalty, push_out, report,
}
use cv_evaluator.Pipeline.Limiter.Spacing.{
  state_in-set_state, interval_report, opts_report, reserve-slot,
}

-- A failure that is not the end of the process: when it is reported, and the error.
abbrev pub Failure : Type 0
Failure = ℕ × ForeignError

-- The limiter after the failures of the portal, one after the other.
abbrev pub fail_all : Text → RateLimiter → List Failure → RateLimiter
fail_all p l [] = l
fail_all p l ((now, e) ∷ fs) = fail_all p (report l now p (some e)) fs

abbrev pub NotCanceled : Failure → Type 0
NotCanceled f = f.1.canceled ≡ false

raise_penalty_first : (gap m : ℕ) → gap < 2 ^ 62 → m ≤ 2 ^ 62 → raise_penalty gap m 0 ≡ min gap m
unfolding raise_penalty
raise_penalty_first gap m h k = rw (le_i64-leb gap m (omega arith) (omega arith)) (ground arith)

raise_penalty_next :
    (gap m p : ℕ) → 0 < p → p ≤ m → m < 2 ^ 62 → raise_penalty gap m p ≡ min (p * 2) m
unfolding raise_penalty
raise_penalty_next gap m p pos h k =
    let zero_test : (p == 0) ≡ false = ground arith in
    rw (zero_test, double_i64_lem p (omega arith))
      (rw (le_i64-leb (p * 2) m (omega arith) (omega arith)) (ground arith))

module _ (p : Text) where
  -- One failure: the penalty is raised, and the portal is left alone for that long.
  report_failed :
      (l : RateLimiter) (now : ℕ) (e : ForeignError)
      → e.canceled ≡ false
      → state (report l now p (some e)) p
        ≡ push_out now
            (raise_penalty (interval l p) l.opts.max_penalty (state l p).penalty)
            (state l p)
  unfolding report
  report_failed l now e h = rw h (
      state_in-set_state p p
        (push_out now (raise_penalty (interval l p) l.opts.max_penalty (state l p).penalty)
          (state l p))
        l.states
      ∙ rw (text_eq_refl p) refl)

  penalty_failed :
      (l : RateLimiter) (now : ℕ) (e : ForeignError)
      → e.canceled ≡ false
      → (state (report l now p (some e)) p).penalty
        ≡ raise_penalty (interval l p) l.opts.max_penalty (state l p).penalty
  unfolding push_out
  penalty_failed l now e h = ap (λ (st : ProviderState). st.penalty) (report_failed l now e h)

  -- The next call of a portal whose failure was reported waits, whenever it is made, at least until
  -- the portal's penalty has passed since the report, unless the failure was the end of the process.
  pub reserve-report :
      (l : RateLimiter) (now : ℕ) (e : ForeignError) (t : ℕ)
      → e.canceled ≡ false
      → now + (state (report l now p (some e)) p).penalty
        ≤ t + (reserve (report l now p (some e)) t p).0
  unfolding push_out
  reserve-report l now e t h =
      let l' = report l now p (some e) in
      let pushed : now + (state l' p).penalty ≤ (state l' p).next =
        rw (report_failed l now e h) (ground arith) in
      omega (arith, (reserve-slot l' t p).0)

  penalty-from :
      (gap m k : ℕ) (l : RateLimiter) (fs : List Failure)
      → interval l p ≡ gap
      → l.opts.max_penalty ≡ m
      → 0 < gap
      → 0 < m
      → m < 2 ^ 62
      → (state l p).penalty ≡ min (gap * 2 ^ k) m
      → All NotCanceled fs
      → (state (fail_all p l fs) p).penalty ≡ min (gap * 2 ^ (length fs + k)) m
  penalty-from gap m k l [] eg em hg hm bm e h =
      e ∙ ap (λ (n : ℕ). min (gap * 2 ^ n) m) (omega arith)
  penalty-from gap m k l ((now, x) ∷ fs) eg em hg hm bm e h =
      let l' = report l now p (some x) in
      let raised : (state l' p).penalty ≡ min (gap * 2 ^ suc k) m =
        penalty_failed l now x h.0
        ∙ rw (eg, em, e)
            (raise_penalty_next gap m (min (gap * 2 ^ k) m) (positive gap k m hg hm) (omega arith)
                bm
              ∙ doubled gap k m) in
      penalty-from gap m (suc k) l' fs (interval_report l now p (some x) p ∙ eg)
        (ap (λ (o : Options). o.max_penalty) (opts_report l now p (some x)) ∙ em) hg hm bm raised
        h.1
      ∙ ap (λ (n : ℕ). min (gap * 2 ^ n) m) (omega arith)
    where
      positive : (g n b : ℕ) → 0 < g → 0 < b → 0 < min (g * 2 ^ n) b
      positive g n b hg hb = let q : g * 1 ≤ g * 2 ^ n = grind (arith, pow_pos n) in omega arith

      doubled : (g n b : ℕ) → min (min (g * 2 ^ n) b * 2) b ≡ min (g * 2 ^ suc n) b
      doubled g n b = rw pow-suc (omega arith)

  -- After one or more failures in a row of a portal that had no penalty, none of them the end of the
  -- process, its penalty is its interval, doubled with every failure after the first, and at most
  -- the maximum. The interval and the maximum are positive and below 2 ^ 62 nanoseconds.
  pub penalty-fail_all :
      (l : RateLimiter) (f : Failure) (fs : List Failure)
      → 0 < interval l p
      → interval l p < 2 ^ 62
      → 0 < l.opts.max_penalty
      → l.opts.max_penalty < 2 ^ 62
      → (state l p).penalty ≡ 0
      → All NotCanceled (f ∷ fs)
      → (state (fail_all p l (f ∷ fs)) p).penalty
        ≡ min (interval l p * 2 ^ length fs) l.opts.max_penalty
  penalty-fail_all l (now, e) fs hg bg hm bm none_yet h =
      let l' = report l now p (some e) in
      let raised : (state l' p).penalty ≡ raise_penalty (interval l p) l.opts.max_penalty 0 =
        penalty_failed l now e h.0
        ∙ ap (raise_penalty (interval l p) l.opts.max_penalty) none_yet in
      let once = raise_penalty_first (interval l p) l.opts.max_penalty bg (omega arith) in
      let first : (state l' p).penalty ≡ min (interval l p * 2 ^ 0) l.opts.max_penalty =
        omega (arith, raised, once) in
      penalty-from (interval l p) l.opts.max_penalty 0 l' fs (interval_report l now p (some e) p)
        (ap (λ (o : Options). o.max_penalty) (opts_report l now p (some e))) hg hm bm first h.1
      ∙ ap (λ (n : ℕ). min (interval l p * 2 ^ n) l.opts.max_penalty) (omega arith)
