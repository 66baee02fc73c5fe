-- ===== src/Tests/Limiter.antt =====
-- The portals' rate limiter, on one portal.
use cv_evaluator.Prelude.{◌≡◌, refl, List, [], ◌∷◌}
use cv_evaluator.Prelude.Text.{Text, codes, text_eq}
use cv_evaluator.Prelude.Int.{pos}
use cv_evaluator.Pipeline.Config.{def}
use cv_evaluator.Pipeline.Limiter.{
  RateLimiter, RawOptions, new_limiter, option_defaults, interval, override, state, state_in,
  set_state, reserve,
}
use cv_evaluator.Pipeline.Limiter.Spacing.{Call, slots, apply, SpacedFrom, slots-SpacedFrom}

abbrev portal : Text
portal = codes "jobindex"

abbrev options : RawOptions
options = record { interval = pos 10; per_provider = []; max_penalty = pos 25 }

abbrev calls : List Call
calls = Call.reserved portal 5 ∷ Call.reserved portal 6 ∷ Call.reserved portal 40 ∷ []

booked : slots portal (new_limiter options) calls ≡ 5 ∷ 15 ∷ 40 ∷ []
unfolding slots apply new_limiter option_defaults def interval override state_in set_state reserve
    text_eq
booked = refl

slots-SpacedFrom_example :
    SpacedFrom
      (interval (new_limiter options) portal)
      (state (new_limiter options) portal).next
      (slots portal (new_limiter options) calls)
slots-SpacedFrom_example = slots-SpacedFrom portal (new_limiter options) calls

-- The limiter with its defaults written out.
abbrev limiter : RateLimiter
limiter = record {
  opts = record { interval = 10; per_provider = []; max_penalty = 25 };
  states = [];
}

of_limiter : interval limiter portal ≡ 10
unfolding interval override
of_limiter = refl

no_penalty : (state limiter portal).penalty ≡ 0
unfolding state_in
no_penalty = refl
