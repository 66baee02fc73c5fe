-- ===== src/Pipeline/Limiter/Spacing.antt =====
-- The slots that the limiter books for a portal.
use mathlib.Core.Path.{subst}
use cv_evaluator.Prelude.{
  ℕ, ◌+◌, ◌≤◌, ◌≡◌, refl, sym, false, Option, none, some, List, [], ◌∷◌, if◌then◌else◌, arith,
  Bool-cases, inl, inr,
}
use cv_evaluator.Prelude.Text.{Text, text_eq, text_eq→eq, text_eq_refl}
use cv_evaluator.Pipeline.Failure.{ForeignError}
use cv_evaluator.Pipeline.Limiter.{
  ProviderState, States, RateLimiter, interval, state_in, set_state, state, slot, reserve,
  raise_penalty, push_out, report,
}

-- A call of the limiter: a slot is booked, or an outcome reported, for a portal at a time.
pub data Call : Type 0 where
  reserved : Text → ℕ → Call
  reported : Text → ℕ → Option ForeignError → Call

unfoldable pub apply : RateLimiter → Call → RateLimiter
apply l (Call.reserved p now) = (reserve l now p).1
apply l (Call.reported p now e) = report l now p e

-- The times at which the portal may be called: the time of each booking and the wait that it got.
unfoldable pub slots : Text → RateLimiter → List Call → List ℕ
slots p l [] = []
slots p l (Call.reserved q now ∷ calls) =
    let rest = slots p (apply l (Call.reserved q now)) calls in
    if text_eq q p then (now + (reserve l now q).0) ∷ rest else rest
slots p l (Call.reported q now e ∷ calls) = slots p (apply l (Call.reported q now e)) calls

-- The first time is not before `t`, and each further one not before `gap` after the one in front.
abbrev pub SpacedFrom : ℕ → ℕ → List ℕ → Type 0
SpacedFrom gap t [] = Unit
SpacedFrom gap t (x ∷ xs) = (t ≤ x) × SpacedFrom gap (x + gap) xs

pub state_in-set_state :
    (p q : Text) (st : ProviderState) (m : States)
    → state_in q (set_state p st m) ≡ (if text_eq p q then st else state_in q m)
unfolding state_in set_state
state_in-set_state p q st [] = refl
state_in-set_state p q st ((k, u) ∷ m) = ground (
  arith,
  state_in-set_state p q st m,
  text_eq→eq k p,
  text_eq_refl q,
  text_eq→eq p q,
  text_eq→eq k q,
  text_eq_refl k,
)

SpacedFrom-weaken : (gap s t : ℕ) (xs : List ℕ) → s ≤ t → SpacedFrom gap t xs → SpacedFrom gap s xs
SpacedFrom-weaken gap s t [] h a = tt
SpacedFrom-weaken gap s t (x ∷ xs) h (a, rest) = (omega arith, rest)

-- The portal's next slot never moves back.
next_push_out : (now penalty : ℕ) (st : ProviderState) → st.next ≤ (push_out now penalty st).next
unfolding push_out
next_push_out now penalty st = ground arith

next_report :
    (l : RateLimiter) (now : ℕ) (p q : Text) (e : Option ForeignError)
    → (state l q).next ≤ (state (report l now p e) q).next
unfolding report
next_report l now p q none =
    ground
      (arith, text_eq→eq p q, state_in-set_state p q (record (state l p) { penalty = 0 }) l.states)
next_report l now p q (some e) = ground (
  arith,
  text_eq→eq p q,
  state_in-set_state p q (state l p) l.states,
  state_in-set_state p q
      (push_out now (raise_penalty (interval l p) l.opts.max_penalty (state l p).penalty)
        (state l p))
      l.states,
  next_push_out now (raise_penalty (interval l p) l.opts.max_penalty (state l p).penalty)
      (state l p),
)

-- The slot that a call books is not before the portal's next one, and moves it on by the interval.
pub reserve-slot :
    (l : RateLimiter) (now : ℕ) (p : Text)
    → ((state l p).next ≤ now + (reserve l now p).0)
      × ((state (reserve l now p).1 p).next ≡ (now + (reserve l now p).0) + interval l p)
unfolding reserve slot
reserve-slot l now p =
    let st = state l p in
    let st' = record st { next = slot st now + interval l p } in
    ground (arith, state_in-set_state p p st' l.states, text_eq_refl p)

reserve-other :
    (l : RateLimiter) (now : ℕ) (p q : Text)
    → text_eq p q ≡ false
    → state (reserve l now p).1 q ≡ state l q
unfolding reserve slot
reserve-other l now p q n = ground (
  arith,
  state_in-set_state p q (record (state l p) { next = slot (state l p) now + interval l p })
      l.states,
)

opts_reserve : (l : RateLimiter) (now : ℕ) (p : Text) → (reserve l now p).1.opts ≡ l.opts
unfolding reserve
opts_reserve l now p = refl

pub opts_report :
    (l : RateLimiter) (now : ℕ) (p : Text) (e : Option ForeignError)
    → (report l now p e).opts ≡ l.opts
unfolding report
opts_report l now p none = refl
opts_report l now p (some e) = ground arith

interval_cong : (l m : RateLimiter) (p : Text) → m.opts ≡ l.opts → interval m p ≡ interval l p
unfolding interval
interval_cong l m p h = rw h refl

pub interval_report :
    (l : RateLimiter) (now : ℕ) (q : Text) (e : Option ForeignError) (p : Text)
    → interval (report l now q e) p ≡ interval l p
interval_report l now q e p = interval_cong l (report l now q e) p (opts_report l now q e)

interval_apply : (l : RateLimiter) (c : Call) (p : Text) → interval (apply l c) p ≡ interval l p
unfolding apply
interval_apply l (Call.reserved q now) p =
    interval_cong l (reserve l now q).1 p (opts_reserve l now q)
interval_apply l (Call.reported q now e) p = interval_report l now q e p

-- Whatever is booked and reported for all the portals, in any order and at any times, even if the
-- clock is set back: the first slot of a portal is not before its next free one, and any two of its
-- slots that follow each other are at least its interval apart.
pub slots-SpacedFrom :
    (p : Text) (l : RateLimiter) (calls : List Call)
    → SpacedFrom (interval l p) (state l p).next (slots p l calls)
unfolding slots apply
slots-SpacedFrom p l [] = tt
slots-SpacedFrom p l (Call.reported q now e ∷ calls) =
    let rest =
      subst
        (λ gap. SpacedFrom gap (state (report l now q e) p).next (slots p (report l now q e) calls))
        (interval_apply l (Call.reported q now e) p)
        (slots-SpacedFrom p (report l now q e) calls) in
    SpacedFrom-weaken (interval l p) (state l p).next (state (report l now q e) p).next
      (slots p (report l now q e) calls) (next_report l now q p e) rest
slots-SpacedFrom p l (Call.reserved q now ∷ calls) =
    let l' = (reserve l now q).1 in
    let rest : SpacedFrom (interval l p) (state l' p).next (slots p l' calls) =
      subst (λ gap. SpacedFrom gap (state l' p).next (slots p l' calls))
        (interval_apply l (Call.reserved q now) p) (slots-SpacedFrom p l' calls) in
    elim (Bool-cases (text_eq q p)) [
      | inl t ↦ rw t (booked (text_eq→eq q p t) rest)
      | inr f ↦ rw f (
          subst (λ (st : ProviderState). SpacedFrom (interval l p) st.next (slots p l' calls))
            (reserve-other l now q p f) rest)
    ]
  where
    booked :
        q ≡ p
        → SpacedFrom
            (interval l p)
            (state (reserve l now q).1 p).next
            (slots p (reserve l now q).1 calls)
        → SpacedFrom
            (interval l p)
            (state l p).next
            ((now + (reserve l now q).0) ∷ slots p (reserve l now q).1 calls)
    booked e h =
        let (after, next) = reserve-slot l now p in
        let next' : (state (reserve l now q).1 p).next
            ≡ (now + (reserve l now q).0) + interval l p =
          subst
            (λ x. (state (reserve l now x).1 p).next ≡ (now + (reserve l now x).0) + interval l p)
            (sym e) next in
        (
          subst (λ x. (state l p).next ≤ now + (reserve l now x).0) (sym e) after,
          subst (λ x. SpacedFrom (interval l p) x (slots p (reserve l now q).1 calls)) next' h,
        )
