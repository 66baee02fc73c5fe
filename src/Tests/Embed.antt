-- ===== src/Tests/Embed.antt =====
-- The embed step: what it leaves, the row it writes, and its retries.
use cv_evaluator.Prelude.{◌+◌, ◌≡◌, refl, false, [], ◌∷◌, arith, ◌↔◌}
use cv_evaluator.Prelude.Text.{codes, trim_space, trim_left, trim_right, is_space}
use cv_evaluator.Models.{JobStatus}
use cv_evaluator.Pipeline.Failure.{ok, err, wrap}
use cv_evaluator.Pipeline.Embed.{embed_step}
use cv_evaluator.Pipeline.Embed.Retries.{Round, passes, passes-failed}
use cv_evaluator.Tests.Samples.{config, job, portals, timeout}

embeds : (embed_step portals job).result ≡ ok (1 ∷ 2 ∷ [])
unfolding embed_step trim_space trim_left trim_right is_space
embeds = refl

-- The portal does not answer.
abbrev no_answer : Round
no_answer = record {
  claimed = 100;
  ended = 200;
  outcome = record {
    detail = [];
    fetched = false;
    result = err (wrap (codes "fetch details: ") timeout);
  };
}

passes-failed_example :
    ((passes config job (no_answer ∷ no_answer ∷ [])).status ≡ JobStatus.failed) ↔ (0 + 2 ≡ 2)
passes-failed_example =
    passes-failed config job no_answer (no_answer ∷ [])
      (
        (wrap (codes "fetch details: ") timeout, refl, refl),
        ((wrap (codes "fetch details: ") timeout, refl, refl), tt),
      )
      (omega arith)
