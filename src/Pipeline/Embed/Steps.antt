-- ===== src/Pipeline/Embed/Steps.antt =====
-- What EmbedOne makes of the job that it claimed.
use cv_evaluator.Prelude.{
  ◌≡◌, ◌≢◌, refl, true, false, none, some, [], ◌∷◌, is_empty, arith, ◌⊎◌, ◌↔◌,
}
use cv_evaluator.Prelude.Text.{Text, trim_space}
use cv_evaluator.Models.{Job, Vector}
use cv_evaluator.Pipeline.Failure.{StepError, ok, err}
use cv_evaluator.Pipeline.Embed.{Portals, Outcome, embed_step}

-- The description that a job is embedded from is the job's own, or else the portal's.
abbrev pub Described : Portals → Job → Outcome → Type 0
Described p job o =
    ((trim_space job.detail ≢ []) × (o.detail ≡ job.detail) × (o.fetched ≡ false))
    ⊎ ((trim_space job.detail ≡ [])
        × (p.details job ≡ ok (some o.detail))
        × (trim_space o.detail ≢ [])
        × (o.fetched ≡ true))

is_empty-nil : (s : Text) → is_empty s ≡ true → s ≡ []
is_empty-nil [] h = refl
is_empty-nil (c ∷ s) h = ground arith

is_empty-ne-nil : (s : Text) → is_empty s ≡ false → s ≢ []
is_empty-ne-nil [] h = λ e. cc
is_empty-ne-nil (c ∷ s) h = λ e. cc

-- A step that succeeds has embedded, as it stands, a description that is not blank: the job's own,
-- or the one it fetched because the job's was blank.
pub embed_step-ok :
    (p : Portals) (job : Job) (v : Vector)
    → (embed_step p job).result ≡ ok v
    → Described p job (embed_step p job) × (p.create_embedding (embed_step p job).detail ≡ ok v)
unfolding embed_step
embed_step-ok p job v h = ground arith

-- The job has no description: its own is blank, and the portal has none or a blank one.
abbrev pub HasNoDescription : Portals → Job → Type 0
HasNoDescription p job =
    (trim_space job.detail ≡ [])
    × ((p.details job ≡ ok none)
        ⊎ ((d : Text) × (p.details job ≡ ok (some d)) × (trim_space d ≡ [])))

-- Every failure but a missing description may be retried.
pub embed_step-permanent :
    (p : Portals) (job : Job) (e : StepError)
    → (embed_step p job).result ≡ err e
    → (e.permanent ≡ true) ↔ HasNoDescription p job
unfolding embed_step
embed_step-permanent p job e h = (ground arith, ground arith)
