-- ===== src/RateLimit/Spec.antt =====
-- What the limiter promises: a specification that remembers every event that it allowed.
use cv_evaluator.Prelude.{
  ℕ, suc, ◌+◌, ◌≤◌, Bool, true, false, ◌&&◌, List, [], ◌∷◌, ltb, leb, if◌then◌else◌,
}
use cv_evaluator.Prelude.Text.{Text, text_eq}
use cv_evaluator.RateLimit.{Limiter, allow}

-- An event: its key and its time.
abbrev pub Event : Type 0
Event = Text × ℕ

-- How many events of the key in the log are in the window that ends at `now`: after now - window.
unfoldable pub in_window : ℕ → ℕ → Text → List Event → ℕ
in_window w now key [] = 0
in_window w now key ((k, t) ∷ log) =
    let rest = in_window w now key log in
    if text_eq k key && ltb now (t + w) then suc rest else rest

-- The specification keeps a log of the allowed events, latest first, and nothing else.
unfoldable pub spec_allow : ℕ → ℕ → List Event → Event → Bool × List Event
spec_allow limit w log (key, now) =
    if ltb (in_window w now key log) limit then (true, (key, now) ∷ log) else (false, log)

unfoldable pub spec_run : ℕ → ℕ → List Event → List Event → List Bool
spec_run limit w log [] = []
spec_run limit w log (e ∷ es) =
    let (ok, log') = spec_allow limit w log e in ok ∷ spec_run limit w log' es

-- The answers of a limiter to calls at the given times.
unfoldable pub run : Limiter → List Event → List Bool
run l [] = []
run l ((key, now) ∷ es) = let (answer, l') = allow l key now in answer.0 ∷ run l' es

-- No event is before the time, and none before the one in front of it.
abbrev pub Ordered : ℕ → List Event → Type 0
Ordered t [] = Unit
Ordered t ((key, now) ∷ es) = (t ≤ now) × Ordered now es

-- The events that a limiter allows, latest first, on top of those in `log`.
unfoldable pub allowed : Limiter → List Event → List Event → List Event
allowed l log [] = log
allowed l log ((key, now) ∷ es) =
    let (answer, l') = allow l key now in allowed l' (if answer.0 then (key, now) ∷ log else log) es

-- The limiter after calls at the given times.
unfoldable pub after : Limiter → List Event → Limiter
after l [] = l
after l ((key, now) ∷ es) = after (allow l key now).1 es

-- How many events of the key in the log are in the window that ends at `last`.
unfoldable pub in_span : ℕ → ℕ → Text → List Event → ℕ
in_span w last key [] = 0
in_span w last key ((k, t) ∷ log) =
    let rest = in_span w last key log in
    if text_eq k key && (leb t last && ltb last (t + w)) then suc rest else rest
