-- ===== src/Tests/RateLimit.antt =====
-- The rate limiter: three events within a window of ten, at most two of them allowed.
use cv_evaluator.Prelude.{ℕ, ltb, ◌++◌, ◌≤◌, ◌≡◌, refl, true, false, List, [], ◌∷◌, max, arith}
use cv_evaluator.Prelude.Text.{Text, codes, text_eq}
use cv_evaluator.RateLimit.{Limiter, create, allow, swept, hits_of, set_hits, recent}
use cv_evaluator.RateLimit.Spec.{Event, run, spec_run, Ordered, allowed, in_span, in_window, after}
use cv_evaluator.RateLimit.Refines.{run-create, allowed-create_bounded}

abbrev key : Text
key = codes "k"

abbrev events : List Event
events = (key, 1) ∷ (key, 2) ∷ (key, 3) ∷ (key, 11) ∷ []

in_order : Ordered 0 events
in_order = (omega arith, (omega arith, (omega arith, (omega arith, tt))))

answers : run (create 2 10) events ≡ true ∷ true ∷ false ∷ true ∷ []
unfolding run create allow swept hits_of set_hits recent text_eq
answers = refl

run-create_example : run (create 2 10) events ≡ spec_run (max 1 2) 10 [] events
run-create_example = run-create 2 10 events in_order

allowed-create_bounded_example :
    (in_span 10 5 key (allowed (create 2 10) [] events) ≤ max 1 2)
    × ((now : ℕ)
        → Ordered 0 (events ++ (key, now) ∷ [])
        → (allow (after (create 2 10) events) key now).0.0
          ≡ ltb (in_window 10 now key (allowed (create 2 10) [] events)) (max 1 2))
allowed-create_bounded_example = allowed-create_bounded 2 10 events key 5 in_order

-- The limiter after its first event.
abbrev used : Limiter
used = (allow (create 1 10) key 1).1

denied : (allow used key 3).0 ≡ (false, 8)
unfolding create allow swept hits_of set_hits recent text_eq
denied = refl

denied_left : allow used key 3 ≡ ((false, 8), (allow used key 3).1)
unfolding create allow swept hits_of set_hits recent text_eq
denied_left = refl
