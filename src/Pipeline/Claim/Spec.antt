-- ===== src/Pipeline/Claim/Spec.antt =====
-- What the queues of internal/pipeline/store.go promise, stated without their queries: which rows
-- may be claimed, and which of them is next.
use cv_evaluator.Prelude.{
  ℕ, ◌+◌, ◌≤◌, ◌<◌, ◌≡◌, refl, Bool, true, false, ◌&&◌, Option, none, some, List, [], ◌∷◌, ◌==◌, In,
  arith, ◌↔◌, ◌⊎◌, inl, inr, Bool-cases,
}
use cv_evaluator.Prelude.Table.{Key, key_before}
use cv_evaluator.Models.{is_live, Job, JobStatus, SearchResult, EvaluationState}
use cv_evaluator.Pipeline.Claim.{claimable_job, claimable_result, job_embedded, is_embedded}
use mathlib.Core.Path.{subst}

abbrev pub IsDue : ℕ → Option ℕ → Type 0
IsDue now none = Unit
IsDue now (some t) = t ≤ now

abbrev pub IsStale : ℕ → Option ℕ → Type 0
IsStale stale none = ⊥
IsStale stale (some t) = t < stale

-- A job may be claimed if it is waiting and due, or if the worker that holds it is presumed dead.
abbrev pub Claimable : ℕ → ℕ → Job → Type 0
Claimable now stale j =
    (j.deleted_at ≡ none)
    × ((((j.status ≡ JobStatus.new) ⊎ (j.status ≡ JobStatus.described))
          × IsDue now j.next_attempt_at)
        ⊎ ((j.status ≡ JobStatus.processing) × IsStale stale j.claimed_at))

pub claimable_job_iff :
    (now stale : ℕ) (j : Job) → (claimable_job now stale j ≡ true) ↔ Claimable now stale j
unfolding claimable_job
claimable_job_iff now stale j = (ground arith, ground arith)

-- The job of a search result has been embedded and not been deleted.
abbrev pub HasEmbeddedJob : List Job → ℕ → Type 0
HasEmbeddedJob jobs id =
    (j : Job) × In j jobs × (j.id ≡ id) × (j.deleted_at ≡ none) × (j.status ≡ JobStatus.embedded)

pub job_embedded→ :
    (jobs : List Job) (id : ℕ) → job_embedded jobs id ≡ true → HasEmbeddedJob jobs id
unfolding job_embedded
job_embedded→ [] id h = ground arith
job_embedded→ (j ∷ jobs) id h =
    elim (Bool-cases (j.id == id && (is_live j.deleted_at && is_embedded j.status))) [
      | inl t ↦ (j, inl refl, ground arith, ground arith, ground arith)
      | inr f ↦ let (k, i, e, d, w) = job_embedded→ jobs id (ground arith) in (k, inr i, e, d, w)
    ]

pub →job_embedded :
    (jobs : List Job) (id : ℕ) (j : Job)
    → In j jobs
    → j.id ≡ id
    → j.deleted_at ≡ none
    → j.status ≡ JobStatus.embedded
    → job_embedded jobs id ≡ true
unfolding job_embedded
→job_embedded [] id j i e d s = elim i [ ]
→job_embedded (k ∷ jobs) id j (inl p) e d s =
    let here : job_embedded (j ∷ jobs) id ≡ true = ground arith in
    subst (λ x. job_embedded (x ∷ jobs) id ≡ true) p here
→job_embedded (k ∷ jobs) id j (inr i) e d s = ground (arith, →job_embedded jobs id j i e d s)

abbrev pub ClaimableResult : List Job → ℕ → ℕ → SearchResult → Type 0
ClaimableResult jobs now stale r =
    HasEmbeddedJob jobs r.job_id
    × (((r.evaluation_status ≡ EvaluationState.pending) × IsDue now r.next_attempt_at)
        ⊎ ((r.evaluation_status ≡ EvaluationState.processing) × IsStale stale r.claimed_at))

pub claimable_result_iff :
    (jobs : List Job) (now stale : ℕ) (r : SearchResult)
    → (claimable_result jobs now stale r ≡ true) ↔ ClaimableResult jobs now stale r
unfolding claimable_result
claimable_result_iff jobs now stale r = (
  λ h. (job_embedded→ jobs r.job_id (ground arith), ground arith),
  λ ((j, i, e, d, s), w). let x = →job_embedded jobs r.job_id j i e d s in ground arith,
)

-- A claimed result: it is being evaluated since now, and the attempt is counted.
abbrev pub started_result : ℕ → SearchResult → SearchResult
started_result now r = record r {
  evaluation_status = EvaluationState.processing;
  claimed_at = some now;
  attempts = r.attempts + 1;
  updated_at = now;
}

-- NULL is the earliest time of all.
abbrev pub EarlierOrSame : Option ℕ → Option ℕ → Type 0
EarlierOrSame none b = Unit
EarlierOrSame (some s) none = ⊥
EarlierOrSame (some s) (some t) = s ≤ t

-- The first key stands before the second, or is the second: the one due longest goes first, of
-- those the oldest, and of those the one with the least id.
abbrev pub NotAfter : Key → Key → Type 0
NotAfter a b =
    EarlierOrSame a.next_attempt_at b.next_attempt_at
    × (a.next_attempt_at ≡ b.next_attempt_at
        → (a.created_at ≤ b.created_at) × (a.created_at ≡ b.created_at → a.id ≤ b.id))

pub key_before-NotAfter : (a b : Key) → key_before b a ≡ false → NotAfter a b
unfolding key_before
key_before-NotAfter a b h = (ground arith, λ e. (ground arith, λ f. ground arith))

-- `r` is the row of `rows` that a claim has to take: it may be claimed, no other transaction has
-- locked it, and no such row stands before it.
pub record IsNext {R : Type 0} (May : R → Type 0) (locked : R → Bool) (key : R → Key)
    (rows : List R) (r : R) : Type 0 where
  pub member : In r rows
  pub may : May r
  pub free : locked r ≡ false
  pub first : (s : R) → In s rows → May s → locked s ≡ false → NotAfter (key r) (key s)

-- No row may be claimed that is not locked.
abbrev pub Idle : {R : Type 0} → (R → Type 0) → (R → Bool) → List R → Type 0
Idle {R} May locked rows = (r : R) → In r rows → May r → locked r ≡ false → ⊥
