-- ===== src/Pipeline/Workers/Exclusion.antt =====
-- What holds in every state of the embed workers that run in time, and that all steps but the write
-- keep it.
use mathlib.Core.Path.{subst}
use cv_evaluator.Prelude.{
  ℕ, ◌+◌, ◌-◌, ◌≤◌, ◌≡◌, ◌≢◌, refl, sym, ap, ◌∙◌, Bool, true, false, some, List, ◌∷◌, ◌++◌, In,
  arith, Bool-cases, ==_iff, if◌then◌else◌, inl, inr, ◌⊎◌, All-of_In,
}
use cv_evaluator.Prelude.Table.{update_where, In-update_where}
use cv_evaluator.Models.{Job, JobStatus}
use cv_evaluator.Pipeline.Config.{Config}
use cv_evaluator.Pipeline.Claim.{start_job, has_job_id}
use cv_evaluator.Pipeline.Claim.Spec.{Claimable, IsStale}
use cv_evaluator.Pipeline.Embed.Row.{IsValid, start_job-IsValid}
use cv_evaluator.Pipeline.Workers.{Hold, World, IsTimely, around, Apart, job_id_of}
use cv_evaluator.Pipeline.Workers.Holds.{In-around, Apart-around}

-- The row `r` is as its worker left it when it claimed it.
pub record IsHeld (h : Hold) (r : Job) : Type 0 where
  pub status : r.status ≡ JobStatus.processing
  pub claimed_at : r.claimed_at ≡ some h.since
  pub detail : r.detail ≡ h.job.detail
  pub attempts : r.attempts ≡ h.job.attempts

pub record Inv (w : World) : Type 0 where
  pub valid : (r : Job) → In r w.jobs → IsValid r
  pub unique : (r s : Job) → In r w.jobs → In s w.jobs → r.id ≡ s.id → r ≡ s
  pub held : (h : Hold) (r : Job) → In h w.holds → In r w.jobs → r.id ≡ h.job.id → IsHeld h r
  pub apart : Apart w.holds

abbrev updated : (Job → Bool) → (Job → Job) → Job → Job
updated p f r = if p r then f r else r

id-updated :
    (p : Job → Bool) (f : Job → Job)
    → ((r : Job) → (f r).id ≡ r.id)
    → (r : Job) → (updated p f r).id ≡ r.id
id-updated p f keeps r = elim (Bool-cases (p r)) [ inl t ↦ rw t (keeps r) | inr u ↦ rw u ]

-- An UPDATE that keeps ids keeps them unique.
pub update_unique :
    (p : Job → Bool) (f : Job → Job) (jobs : List Job)
    → ((r : Job) → (f r).id ≡ r.id)
    → ((r s : Job) → In r jobs → In s jobs → r.id ≡ s.id → r ≡ s)
    → (r s : Job) → In r (update_where p f jobs)
    → In s (update_where p f jobs)
    → r.id ≡ s.id
    → r ≡ s
update_unique p f jobs keeps unique r s i j e =
    let (r', i', er) = In-update_where p f r jobs i in
    let (s', j', es) = In-update_where p f s jobs j in
    let same = id-updated p f keeps in
    let e' : r'.id ≡ s'.id =
      sym (same r') ∙ sym (ap (λ (x : Job). x.id) er) ∙ e ∙ ap (λ (x : Job). x.id) es ∙ same s' in
    er ∙ ap (updated p f) (unique r' s' i' j' e') ∙ sym es

pub updated_cases :
    (p : Job → Bool) (f : Job → Job) (jobs : List Job) (r : Job)
    → In r (update_where p f jobs)
    → ((s : Job) × In s jobs × (p s ≡ true) × (r ≡ f s)) ⊎ (In r jobs × (p r ≡ false))
updated_cases p f jobs r i =
    let (s, m, e) = In-update_where p f r jobs i in
    elim (Bool-cases (p s)) [
      | inl t ↦ inl (s, m, t, e ∙ ap (λ b. if b then f s else s) t)
      | inr u ↦
          let q : r ≡ s = e ∙ ap (λ b. if b then f s else s) u in
          inr (subst (λ x. In x jobs) (sym q) m, ap p q ∙ u)
    ]

id-start_job : (now : ℕ) (j : Job) → (start_job now j).id ≡ j.id
unfolding start_job
id-start_job now j = refl

start_job-IsHeld :
    (now : ℕ) (j : Job) → IsHeld (record { job = start_job now j; since = now }) (start_job now j)
unfolding start_job
start_job-IsHeld now j = record { status = refl; claimed_at = refl; detail = refl; attempts = refl }

-- A job that a worker holds in time may not be claimed.
held_not_Claimable :
    (h : Hold) (r : Job) (now timeout : ℕ)
    → IsHeld h r
    → now ≤ h.since + timeout
    → Claimable now (now - timeout) r
    → ⊥
held_not_Claimable h r now timeout held fresh (live, inl (inl n, due)) = cc (held.status, n)
held_not_Claimable h r now timeout held fresh (live, inl (inr d, due)) = cc (held.status, d)
held_not_Claimable h r now timeout held fresh (live, inr (busy, stale)) =
    let s = subst (IsStale (now - timeout)) held.claimed_at stale in omega arith

module _ (c : Config) (w : World) (inv : Inv w) where
  pub post-Inv :
      (j : Job)
      → IsValid j
      → ((k : Job) → In k w.jobs → j.id ≢ k.id)
      → ((h : Hold) → In h w.holds → j.id ≢ h.job.id)
      → Inv (record w { jobs = j ∷ w.jobs })
  post-Inv j v new free = record {
    valid = λ r. elim [ inl e ↦ subst IsValid (sym e) v | inr i ↦ inv.valid r i ];
    unique = λ r s i k e. post_unique i k e;
    held = λ h r. λ i. elim [
      | inl e ↦ λ q. absurd (free h i (ap (λ (x : Job). x.id) (sym e) ∙ q))
      | inr k ↦ λ q. inv.held h r i k q
    ];
    apart = inv.apart;
  }
    where
      post_unique : {r s : Job} → In r (j ∷ w.jobs) → In s (j ∷ w.jobs) → r.id ≡ s.id → r ≡ s
      post_unique (inl e) (inl f) q = e ∙ sym f
      post_unique (inl e) (inr k) q = absurd (new _ k (ap (λ (x : Job). x.id) (sym e) ∙ q))
      post_unique (inr i) (inl f) q = absurd (new _ i (ap (λ (x : Job). x.id) (sym f) ∙ sym q))
      post_unique (inr i) (inr k) q = inv.unique _ _ i k q

  -- Only the holds change.
  pub drop-Inv :
      (before after : List Hold) (h : Hold)
      → w.holds ≡ around before h after
      → Inv (record w { holds = before ++ after })
  drop-Inv before after h e = record {
    valid = inv.valid;
    unique = inv.unique;
    held = λ k r i. inv.held k r (subst (In k) (sym e) (In-around before after h k i));
    apart = (Apart-around before after h (subst Apart e inv.apart)).0;
  }

  pub claim-Inv :
      (j : Job)
      → IsTimely c w
      → In j w.jobs
      → Claimable w.clock (w.clock - c.stale_timeout) j
      → Inv (record w {
        jobs = update_where (has_job_id j.id) (start_job w.clock) w.jobs;
        holds = record { job = start_job w.clock j; since = w.clock } ∷ w.holds;
      })
  claim-Inv j timely i may = record {
    valid = λ r m. elim (updated_cases (has_job_id j.id) (start_job w.clock) w.jobs r m) [
      | inl (s, _, _, e) ↦ subst IsValid (sym e) (start_job-IsValid w.clock s)
      | inr (old, _) ↦ inv.valid r old
    ];
    unique =
        update_unique (has_job_id j.id) (start_job w.clock) w.jobs (id-start_job w.clock)
          inv.unique;
    held = λ k r. elim [
      | inl new ↦ λ m q.
          subst (λ x. IsHeld x r) (sym new)
            (own r m (q ∙ ap job_id_of new ∙ id-start_job w.clock j))
      | inr old ↦ λ m q. others k old r m q
    ];
    apart = (
      All-of_In (λ k. (start_job w.clock j).id ≢ k.job.id) w.holds
          (λ k m q. not_held k m (sym (id-start_job w.clock j) ∙ q)),
      inv.apart,
    );
  }
    where
      not_held : (k : Hold) → In k w.holds → j.id ≢ k.job.id
      not_held k m q =
          held_not_Claimable k j w.clock c.stale_timeout (inv.held k j m i q) (timely k m) may

      own :
          (r : Job)
          → In r (update_where (has_job_id j.id) (start_job w.clock) w.jobs)
          → r.id ≡ j.id
          → IsHeld (record { job = start_job w.clock j; since = w.clock }) r
      own r m q = elim (updated_cases (has_job_id j.id) (start_job w.clock) w.jobs r m) [
        | inl (s, is, t, e) ↦
            let same : s ≡ j = inv.unique s j is i ((==_iff s.id j.id).0 t) in
            subst (IsHeld (record { job = start_job w.clock j; since = w.clock }))
              (sym (e ∙ ap (start_job w.clock) same)) (start_job-IsHeld w.clock j)
        | inr (_, f) ↦ cc (f, (==_iff r.id j.id).1 q)
      ]

      others :
          (k : Hold)
          → In k w.holds
          → (r : Job) → In r (update_where (has_job_id j.id) (start_job w.clock) w.jobs)
          → r.id ≡ k.job.id
          → IsHeld k r
      others k m r n q = elim (updated_cases (has_job_id j.id) (start_job w.clock) w.jobs r n) [
        | inl (s, is, t, e) ↦ absurd (
            not_held k m (
              sym ((==_iff s.id j.id).0 t)
              ∙ sym (id-start_job w.clock s)
              ∙ ap (λ (x : Job). x.id) (sym e)
              ∙ q))
        | inr (old, _) ↦ inv.held k r m old q
      ]
