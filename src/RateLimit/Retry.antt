-- ===== src/RateLimit/Retry.antt =====
-- When an event that was denied will be allowed.
use mathlib.Core.Path.{subst}
use cv_evaluator.Prelude.{
  ℕ, ◌+◌, ◌-◌, ◌%◌, ◌≤◌, ◌<◌, ◌≡◌, ap, sym, ◌∙◌, Bool, true, false, not, List, [], ◌∷◌, ◌++◌, leb,
  ◌==◌, if◌then◌else◌, is_empty, length, arith, Bool-cases, inl, inr, All, length-append,
}
use cv_evaluator.Prelude.Text.{Text, text_eq, text_eq_refl}
use cv_evaluator.RateLimit.{
  Limiter, Hits, hits_of, set_hits, recent, sweep, swept, allow, create, decide, sweep_every,
  oldest,
}
use cv_evaluator.RateLimit.Recent.{
  hits_of-set_hits, length-recent, Unique, set_hits-Unique, sweep-Unique, recent-sweep,
}

abbrev AreShort : ℕ → Hits → Type 0
AreShort limit m = All (λ e. length e.1 ≤ limit) m

-- What holds of a limiter between two calls.
pub record IsKept (l : Limiter) : Type 0 where
  pub some_allowed : 0 < l.limit
  pub short : All (λ e. length e.1 ≤ l.limit) l.hits
  pub unique : Unique l.hits

pub create-IsKept : (limit w : ℕ) → IsKept (create limit w)
unfolding create
create-IsKept limit w = record { some_allowed = omega arith; short = tt; unique = tt }

length-hits_of :
    (limit : ℕ) (key : Text) (m : Hits) → AreShort limit m → length (hits_of key m) ≤ limit
unfolding hits_of
length-hits_of limit key [] h = omega arith
length-hits_of limit key ((k, ts) ∷ m) h = ground (arith, length-hits_of limit key m h.1)

set_hits-AreShort :
    (limit : ℕ) (key : Text) (ts : List ℕ) (m : Hits)
    → length ts ≤ limit
    → AreShort limit m
    → AreShort limit (set_hits key ts m)
unfolding set_hits
set_hits-AreShort limit key ts [] n h = (n, tt)
set_hits-AreShort limit key ts ((k, us) ∷ m) n h = elim (Bool-cases (text_eq k key)) [
  | inl t ↦ rw t (n, h.1)
  | inr f ↦ rw f (h.0, set_hits-AreShort limit key ts m n h.1)
]

sweep-AreShort : (limit w now : ℕ) (m : Hits) → AreShort limit m → AreShort limit (sweep w now m)
unfolding sweep
sweep-AreShort limit w now [] h = tt
sweep-AreShort limit w now ((k, ts) ∷ m) h = elim (Bool-cases (is_empty (recent w now ts))) [
  | inl t ↦ rw t (sweep-AreShort limit w now m h.1)
  | inr f ↦ rw f (h.0, sweep-AreShort limit w now m h.1)
]

swept-IsKept : (l : Limiter) (now : ℕ) → IsKept l → IsKept (swept l now)
unfolding swept
swept-IsKept l now k = elim (Bool-cases ((l.calls + 1) % sweep_every == 0)) [
  | inl t ↦ rw t (record {
    some_allowed = k.some_allowed;
    short = sweep-AreShort l.limit l.window now l.hits k.short;
    unique = sweep-Unique l.window now l.hits k.unique;
  })
  | inr f ↦ rw f (record { some_allowed = k.some_allowed; short = k.short; unique = k.unique })
]

decide-IsKept :
    (l : Limiter) (key : Text) (now : ℕ) (ts : List ℕ)
    → length ts ≤ l.limit
    → IsKept l
    → IsKept (decide l key now ts).1
decide-IsKept l key now ts n k = elim (Bool-cases (leb l.limit (length ts))) [
  | inl t ↦ rw t (record {
    some_allowed = k.some_allowed;
    short = set_hits-AreShort l.limit key ts l.hits n k.short;
    unique = set_hits-Unique key ts l.hits k.unique;
  })
  | inr f ↦ rw f (record {
    some_allowed = k.some_allowed;
    short =
        set_hits-AreShort l.limit key (ts ++ now ∷ []) l.hits
          (omega (arith, length-append ts (now ∷ []), leb-false l.limit (length ts) f)) k.short;
    unique = set_hits-Unique key (ts ++ now ∷ []) l.hits k.unique;
  })
]
  where
    leb-false : (a b : ℕ) → leb a b ≡ false → b < a
    leb-false a b h = ground arith

-- Every call keeps the limiter's state: no key has more hits than the limit, and no key stands
-- twice in the map.
pub allow-IsKept : (l : Limiter) (key : Text) (now : ℕ) → IsKept l → IsKept (allow l key now).1
unfolding allow
allow-IsKept l key now k =
    let s = swept-IsKept l now k in
    let ts = hits_of key (swept l now).hits in
    decide-IsKept (swept l now) key now (recent (swept l now).window now ts)
      (omega (
        arith,
        length-recent (swept l now).window now ts,
        length-hits_of (swept l now).limit key (swept l now).hits s.short,
      ))
      s

decide-denied :
    (l : Limiter) (key : Text) (now r : ℕ) (ts : List ℕ) (l' : Limiter)
    → decide l key now ts ≡ ((false, r), l')
    → (l.limit ≤ length ts)
      × (r ≡ oldest ts + l.window - now)
      × (record l { hits = set_hits key ts l.hits } ≡ l')
decide-denied l key now r ts l' e = elim (Bool-cases (leb l.limit (length ts))) [
  | inl t ↦
      let e' = subst (λ b. chosen b ≡ ((false, r), l')) t e in
      (
        ground arith,
        sym (ap (λ (x : (Bool × ℕ) × Limiter). x.0.1) e'),
        ap (λ (x : (Bool × ℕ) × Limiter). x.1) e',
      )
  | inr f ↦
      let e' = subst (λ b. chosen b ≡ ((false, r), l')) f e in
      absurd (true-ne-false (ap (λ (x : (Bool × ℕ) × Limiter). x.0.0) e'))
]
  where
    chosen : Bool → (Bool × ℕ) × Limiter
    chosen b =
        if b
        then ((false, oldest ts + l.window - now), record l { hits = set_hits key ts l.hits })
        else ((true, 0), record l { hits = set_hits key (ts ++ now ∷ []) l.hits })

    true-ne-false : true ≡ false → ⊥
    true-ne-false h = cc

-- The answer of a call, whether or not it sweeps.
allow-answer :
    (l : Limiter) (key : Text) (t : ℕ)
    → Unique l.hits
    → (allow l key t).0.0 ≡ not (leb l.limit (length (recent l.window t (hits_of key l.hits))))
unfolding allow swept
allow-answer l key t u = elim (Bool-cases ((l.calls + 1) % sweep_every == 0)) [
  | inl s ↦ rw s (rw (recent-sweep l.window t t key l.hits (omega arith) u) (ground arith))
  | inr s ↦ rw s (ground arith)
]

-- After a denial the answer turns when the oldest hit leaves the window.
turn :
    (w limit now t : ℕ) (ts : List ℕ)
    → now ≤ t
    → 0 < limit
    → limit ≤ length (recent w now ts)
    → length ts ≤ limit
    → not (leb limit (length (recent w t (recent w now ts))))
      ≡ leb (now + (oldest (recent w now ts) + w - now)) t
unfolding recent
turn w limit now t [] h p full short = absurd (omega arith)
turn w limit now t (x ∷ ts) h p full short =
    ground (arith, length-recent w now ts, length-recent w t ts)

-- A denied event is allowed again from `retryAfter` on, and not earlier, if no other event of its
-- key comes between.
pub allow-retry :
    (l : Limiter) (key : Text) (now r t : ℕ) (l' : Limiter)
    → IsKept l
    → allow l key now ≡ ((false, r), l')
    → now ≤ t
    → (allow l' key t).0.0 ≡ leb (now + r) t
allow-retry l key now r t l' k e h =
    let s = swept l now in
    let kept = swept-IsKept l now k in
    let ts = hits_of key s.hits in
    let hits = recent s.window now ts in
    let (full, er, el) = decide-denied s key now r hits l' (unfold allow in e) in
    let after = record s { hits = set_hits key hits s.hits } in
    let answer = allow-answer after key t (set_hits-Unique key hits s.hits kept.unique) in
    let same : hits_of key after.hits ≡ hits =
      hits_of-set_hits key key hits s.hits
      ∙ ap (λ b. if b then hits else hits_of key s.hits) (text_eq_refl key) in
    ap (λ (x : Limiter). (allow x key t).0.0) (sym el)
    ∙ answer
    ∙ ap (λ (x : List ℕ). not (leb s.limit (length (recent s.window t x)))) same
    ∙ turn s.window s.limit now t ts h kept.some_allowed full
        (length-hits_of s.limit key s.hits kept.short)
    ∙ ap (λ (x : ℕ). leb (now + x) t) (sym er)
