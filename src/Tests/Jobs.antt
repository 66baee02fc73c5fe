-- ===== src/Tests/Jobs.antt =====
-- A posting without a description is stored before, then processed with one.
use cv_evaluator.Prelude.{ℕ, ◌≡◌, refl, true, ◌+◌, some, [], ◌∷◌, arith}
use cv_evaluator.Prelude.Text.{Text, codes, text_eq, trim_space, trim_left, trim_right, is_space}
use cv_evaluator.Prelude.Table.{first_where, update_where, exists_where}
use cv_evaluator.Models.{Job, JobStatus, Vector}
use cv_evaluator.Pipeline.Failure.{ForeignError, Result, ok}
use cv_evaluator.Pipeline.Postings.{JobPost, upsert_job, find_by_key}
use cv_evaluator.Jobs.{
  World, process_job, save_detail, save_embedding, find_by_id, embed, is_job_processed,
}
use cv_evaluator.Jobs.Once.{IsEmbedder, process_job-twice}
use cv_evaluator.Tests.Samples.{job}

abbrev post : JobPost
post = record {
  id = codes "h1";
  provider = codes "jobindex";
  title = codes "Go developer";
  company = codes "Acme";
  location = codes "Aarhus";
  posted_at = [];
  details_url = [];
  details = some (codes "Go");
}

abbrev embedder : Text → Result ForeignError Vector
embedder t = ok (1 ∷ [])

abbrev stored : Job
stored = record job {
  detail = codes "Go";
  visited = true;
  status = JobStatus.embedded;
  embedding = some (1 ∷ []);
  updated_at = 52;
}

abbrev before : World
before = record { jobs = job ∷ []; embedded = [] }

abbrev left : World
left = record { jobs = stored ∷ []; embedded = codes "Go" ∷ [] }

abbrev time : ℕ → ℕ
time k = 50 + k

processes : process_job embedder 8 time post before ≡ (ok stored, left)
unfolding process_job upsert_job find_by_key first_where exists_where update_where save_detail
    save_embedding find_by_id embed text_eq trim_space trim_left trim_right is_space
processes = refl

gives_some : IsEmbedder embedder
gives_some t v h = ground arith

process_job-twice_example :
    (v : Job) × (process_job embedder 9 time post left ≡ (ok v, left))
    × (is_job_processed (codes "jobindex") (codes "h1") (stored ∷ []) ≡ some v)
process_job-twice_example =
    process_job-twice embedder post 8 9 time time stored before left gives_some processes
