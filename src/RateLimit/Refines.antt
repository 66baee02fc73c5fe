-- ===== src/RateLimit/Refines.antt =====
-- The limiter against its specification: a log of the events that it allowed.
use mathlib.Core.Path.{subst, ap₂}
use cv_evaluator.Prelude.{
  max, ℕ, ◌+◌, ◌%◌, ◌≤◌, ◌≡◌, refl, ap, sym, ◌∙◌, Bool, true, false, List, [], ◌∷◌, ◌++◌, ltb, leb,
  ◌==◌, if◌then◌else◌, is_empty, length, arith, Bool-cases, inl, inr, All, length-append, All-map,
}
use cv_evaluator.Prelude.Text.{Text, text_eq, text_eq→eq}
use cv_evaluator.RateLimit.{
  Limiter, hits_of, set_hits, recent, swept, allow, create, decide, sweep_every,
}
use cv_evaluator.RateLimit.Spec.{
  Event, in_window, spec_allow, spec_run, run, Ordered, allowed, after, in_span,
}
use cv_evaluator.RateLimit.Recent.{
  hits_of-set_hits, recent-recent, recent-append, Unique, set_hits-Unique, sweep-Unique,
  recent-sweep,
}

-- The events of a key in a log, oldest first.
times : Text → List Event → List ℕ
times key [] = []
times key ((k, t) ∷ log) =
    let rest = times key log in if text_eq k key then rest ++ t ∷ [] else rest

is_empty-length : (ts : List ℕ) → is_empty ts ≡ true → length ts ≡ 0
is_empty-length [] h = refl
is_empty-length (t ∷ ts) h = ground arith

-- The events of a log are in the order of their times, latest first.
abbrev Descending : List Event → Type 0
Descending [] = Unit
Descending ((k, t) ∷ log) = All (λ e. e.1 ≤ t) log × Descending log

in_window-zero :
    (w now t : ℕ) (key : Text) (log : List Event)
    → All (λ e. e.1 ≤ t) log
    → t + w ≤ now
    → in_window w now key log ≡ 0
unfolding in_window
in_window-zero w now t key [] h out = refl
in_window-zero w now t key ((k, s) ∷ log) h out =
    let earlier : s ≤ t = h.0 in ground (arith, in_window-zero w now t key log h.1 out)

-- With the events in order, dropping until one is in the window leaves those that are in it.
length-recent-times :
    (w now : ℕ) (key : Text) (log : List Event)
    → Descending log
    → length (recent w now (times key log)) ≡ in_window w now key log
unfolding in_window times recent
length-recent-times w now key [] h = refl
length-recent-times w now key ((k, t) ∷ log) h = ground (
  arith,
  length-recent-times w now key log h.1,
  in_window-zero w now t key log h.0,
  recent-append w now (times key log) (t ∷ []),
  length-append (recent w now (times key log)) (t ∷ []),
  is_empty-length (recent w now (times key log)),
)

-- From `now` on the limiter sees in its windows what the log has in them.
record Agrees (now : ℕ) (l : Limiter) (log : List Event) : Type 0 where
  same :
      (key : Text) (t : ℕ)
      → now ≤ t
      → recent l.window t (hits_of key l.hits) ≡ recent l.window t (times key log)
  past : All (λ e. e.1 ≤ now) log
  descending : Descending log
  unique : Unique l.hits

create-Agrees : (limit w : ℕ) → Agrees 0 (create limit w) []
unfolding create hits_of times
create-Agrees limit w = record { same = λ key t h. refl; past = tt; descending = tt; unique = tt }

later : (s now : ℕ) (log : List Event) → s ≤ now → All (λ e. e.1 ≤ s) log → All (λ e. e.1 ≤ now) log
later s now log h past = All-map (λ e. e.1 ≤ s) (λ e. e.1 ≤ now) log (λ e q. omega arith) past

swept-Agrees :
    (l : Limiter) (log : List Event) (s now : ℕ)
    → Agrees s l log
    → s ≤ now
    → Agrees now (swept l now) log
unfolding swept
swept-Agrees l log s now a h = elim (Bool-cases ((l.calls + 1) % sweep_every == 0)) [
  | inl swept_now ↦ rw swept_now (record {
    same =
        λ key t q. recent-sweep l.window now t key l.hits q a.unique ∙ a.same key t (omega arith);
    past = later s now log h a.past;
    descending = a.descending;
    unique = sweep-Unique l.window now l.hits a.unique;
  })
  | inr not_now ↦ rw not_now (record {
    same = λ key t q. a.same key t (omega arith);
    past = later s now log h a.past;
    descending = a.descending;
    unique = a.unique;
  })
]

module _ (l : Limiter) (log : List Event) (key : Text) (now : ℕ) (a : Agrees now l log) where
  hits : List ℕ
  hits = recent l.window now (hits_of key l.hits)

  length-hits : length hits ≡ in_window l.window now key log
  unfolding hits
  length-hits =
      ap length (a.same key now (omega arith))
      ∙ length-recent-times l.window now key log a.descending

  recent-hits :
      (j : Text) (t : ℕ)
      → text_eq key j ≡ true
      → now ≤ t
      → recent l.window t hits ≡ recent l.window t (times j log)
  unfolding hits
  recent-hits j t e q =
      recent-recent l.window now t (hits_of key l.hits) q
      ∙ a.same key t q
      ∙ ap (λ (k : Text). recent l.window t (times k log)) (text_eq→eq key j e)

  -- The denied event changes no window.
  denied-Agrees : Agrees now (record l { hits = set_hits key hits l.hits }) log
  denied-Agrees = record {
    same = λ j t q. rw hits_of-set_hits (elim (Bool-cases (text_eq key j)) [
      | inl e ↦ rw e (recent-hits j t e q)
      | inr n ↦ rw n (a.same j t q)
    ]);
    past = a.past;
    descending = a.descending;
    unique = set_hits-Unique key hits l.hits a.unique;
  }

  -- The allowed event is the latest of its key.
  allowed-Agrees :
      Agrees now (record l { hits = set_hits key (hits ++ now ∷ []) l.hits }) ((key, now) ∷ log)
  unfolding times
  allowed-Agrees = record {
    same = λ j t q. rw hits_of-set_hits (elim (Bool-cases (text_eq key j)) [
      | inl e ↦ rw e (
          recent-append l.window t hits (now ∷ [])
          ∙ ap (λ ts. if is_empty ts then recent l.window t (now ∷ []) else ts ++ now ∷ [])
              (recent-hits j t e q)
          ∙ sym (recent-append l.window t (times j log) (now ∷ [])))
      | inr n ↦ rw n (a.same j t q)
    ]);
    past = (omega arith, a.past);
    descending = (a.past, a.descending);
    unique = set_hits-Unique key (hits ++ now ∷ []) l.hits a.unique;
  }

  decide-Agrees :
      ((decide l key now hits).0.0 ≡ (spec_allow l.limit l.window log (key, now)).0)
      × Agrees now (decide l key now hits).1 (spec_allow l.limit l.window log (key, now)).1
  unfolding spec_allow
  decide-Agrees = elim (Bool-cases (leb l.limit (length hits))) [
    | inl full ↦
        let f : ltb (in_window l.window now key log) l.limit ≡ false =
          ground (arith, length-hits) in
        rw (full, f) (refl, denied-Agrees)
    | inr room ↦
        let f : ltb (in_window l.window now key log) l.limit ≡ true = ground (arith, length-hits) in
        rw (room, f) (refl, allowed-Agrees)
  ]

-- One call: the answers are the same, and the two states agree after it.
allow-Agrees :
    (l : Limiter) (log : List Event) (s : ℕ) (key : Text) (now : ℕ)
    → Agrees s l log
    → s ≤ now
    → ((allow l key now).0.0 ≡ (spec_allow l.limit l.window log (key, now)).0)
      × Agrees now (allow l key now).1 (spec_allow l.limit l.window log (key, now)).1
unfolding allow hits swept
allow-Agrees l log s key now a h =
    decide-Agrees (swept l now) log key now (swept-Agrees l log s now a h)

allow_frame :
    (l : Limiter) (key : Text) (now : ℕ)
    → ((allow l key now).1.limit ≡ l.limit) × ((allow l key now).1.window ≡ l.window)
unfolding allow swept
allow_frame l key now = ground arith

run_lem :
    (l : Limiter) (log : List Event) (s : ℕ) (es : List Event)
    → Agrees s l log
    → Ordered s es
    → run l es ≡ spec_run l.limit l.window log es
unfolding run spec_run
run_lem l log s [] a o = refl
run_lem l log s ((key, now) ∷ es) a o =
    let (answer, agrees) = allow-Agrees l log s key now a o.0 in
    let (limit, window) = allow_frame l key now in
    let rest =
      run_lem (allow l key now).1 (spec_allow l.limit l.window log (key, now)).1 now es agrees
        o.1 in
    ap₂ {C = List Bool} (λ b bs. b ∷ bs) answer
      (rest
        ∙ ap₂ (λ x y. spec_run x y (spec_allow l.limit l.window log (key, now)).1 es) limit window)

-- Whatever the sequence of calls, in the order of their times, a new limiter answers as the
-- specification, which looks at all events that were allowed. Forgetting hits outside the window
-- and sweeping keys change no answer.
pub run-create :
    (limit w : ℕ) (es : List Event)
    → Ordered 0 es
    → run (create limit w) es ≡ spec_run (max 1 limit) w [] es
unfolding create
run-create limit w es o = run_lem (create limit w) [] 0 es (create-Agrees limit w) o

in_span-in_window :
    (w now last : ℕ) (key : Text) (log : List Event)
    → now ≤ last
    → in_span w last key log ≤ in_window w now key log
unfolding in_span in_window
in_span-in_window w now last key [] h = omega arith
in_span-in_window w now last key ((k, t) ∷ log) h =
    ground (arith, in_span-in_window w now last key log h)

IsBounded : ℕ → ℕ → List Event → Type 0
IsBounded limit w log = (key : Text) (last : ℕ) → in_span w last key log ≤ limit

allow-IsBounded :
    (limit w : ℕ) (log : List Event) (key : Text) (now : ℕ)
    → IsBounded limit w log
    → IsBounded limit w (spec_allow limit w log (key, now)).1
unfolding IsBounded spec_allow in_span
allow-IsBounded limit w log key now h k last =
    ground (arith, h k last, in_span-in_window w now last key log, text_eq→eq key k)

log-spec_allow :
    (limit w : ℕ) (log : List Event) (key : Text) (now : ℕ)
    → (spec_allow limit w log (key, now)).1
      ≡ (if (spec_allow limit w log (key, now)).0 then (key, now) ∷ log else log)
unfolding spec_allow
log-spec_allow limit w log key now = ground arith

allowed-IsBounded :
    (limit w : ℕ) (l : Limiter) (log : List Event) (s : ℕ) (es : List Event)
    → l.limit ≡ limit
    → l.window ≡ w
    → Agrees s l log
    → Ordered s es
    → IsBounded limit w log
    → IsBounded limit w (allowed l log es)
unfolding allowed
allowed-IsBounded limit w l log s [] el ew a o b = b
allowed-IsBounded limit w l log s ((key, now) ∷ es) el ew a o b =
    let (answer, agrees) = allow-Agrees l log s key now a o.0 in
    let (same_limit, same_window) = allow_frame l key now in
    let log' = if (allow l key now).0.0 then (key, now) ∷ log else log in
    let e : (spec_allow l.limit l.window log (key, now)).1 ≡ log' =
      log-spec_allow l.limit l.window log key now
      ∙ ap (λ b. if b then (key, now) ∷ log else log) (sym answer) in
    let b' : IsBounded limit w log' =
      subst (IsBounded limit w)
        (ap₂ (λ x y. (spec_allow x y log (key, now)).1) (sym el) (sym ew) ∙ e)
        (allow-IsBounded limit w log key now b) in
    allowed-IsBounded limit w (allow l key now).1 log' now es (same_limit ∙ el) (same_window ∙ ew)
      (subst (Agrees now (allow l key now).1) e agrees) o.1 b'

allow-after :
    (limit w : ℕ) (l : Limiter) (log : List Event) (s : ℕ) (es : List Event) (key : Text) (now : ℕ)
    → l.limit ≡ limit
    → l.window ≡ w
    → Agrees s l log
    → Ordered s (es ++ (key, now) ∷ [])
    → (allow (after l es) key now).0.0 ≡ ltb (in_window w now key (allowed l log es)) limit
unfolding allowed after spec_allow
allow-after limit w l log s [] key now el ew a o =
    let (answer, agrees) = allow-Agrees l log s key now a o.0 in
    answer
    ∙ ap₂ (λ x y. (spec_allow x y log (key, now)).0) el ew
    ∙ test (ltb (in_window w now key log) limit)
  where
    answer_of : Bool × List Event → Bool
    answer_of x = x.0

    test : (b : Bool) → answer_of (if b then (true, (key, now) ∷ log) else (false, log)) ≡ b
    test true = refl
    test false = refl
allow-after limit w l log s ((k, t) ∷ es) key now el ew a o =
    let (answer, agrees) = allow-Agrees l log s k t a o.0 in
    let (same_limit, same_window) = allow_frame l k t in
    let log' = if (allow l k t).0.0 then (k, t) ∷ log else log in
    let e : (spec_allow l.limit l.window log (k, t)).1 ≡ log' =
      log-spec_allow l.limit l.window log k t
      ∙ ap (λ b. if b then (k, t) ∷ log else log) (sym answer) in
    allow-after limit w (allow l k t).1 log' t es key now (same_limit ∙ el) (same_window ∙ ew)
      (subst (Agrees t (allow l k t).1) e agrees) o.1

-- Whatever the sequence of calls, in the order of their times: of each key a new limiter allows at
-- most `limit` events, or one where `limit` is 0, in any window, wherever the window ends; and the
-- next event of a key is allowed exactly if fewer than that of its events that were allowed are in
-- the window that ends with it.
pub allowed-create_bounded :
    (limit w : ℕ) (es : List Event) (key : Text) (last : ℕ)
    → Ordered 0 es
    → (in_span w last key (allowed (create limit w) [] es) ≤ max 1 limit)
      × ((now : ℕ)
          → Ordered 0 (es ++ (key, now) ∷ [])
          → (allow (after (create limit w) es) key now).0.0
            ≡ ltb (in_window w now key (allowed (create limit w) [] es)) (max 1 limit))
unfolding create IsBounded in_span
allowed-create_bounded limit w es key last o = (
  allowed-IsBounded (max 1 limit) w (create limit w) [] 0 es refl refl (create-Agrees limit w) o
      (λ k t. omega arith) key last,
  λ now o'.
      allow-after (max 1 limit) w (create limit w) [] 0 es key now refl refl (create-Agrees limit w)
        o',
)
