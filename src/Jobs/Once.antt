-- ===== src/Jobs/Once.antt =====
-- A posting is embedded once.
use mathlib.Core.Path.{subst}
use cv_evaluator.Prelude.{
  ℕ, ◌≡◌, refl, sym, ap, ◌∙◌, Bool, true, false, not, ◌&&◌, ◌||◌, Option, none, some, List, [], ◌∷◌,
  is_empty, if◌then◌else◌, arith, Bool-cases, inl, inr,
}
use cv_evaluator.Prelude.Text.{Text, trim_space}
use cv_evaluator.Prelude.Table.{update_where, first_where, exists_where, first-exists}
use cv_evaluator.Pipeline.Postings.Stored.{upsert_job-ok}
use cv_evaluator.Models.{Job, Vector, is_live}
use cv_evaluator.Pipeline.Failure.{ForeignError, StepError, Result, ok, err}
use cv_evaluator.Pipeline.Postings.{JobPost, has_key, find_by_key, upsert_job}
use cv_evaluator.Jobs.{
  has_job_id, save_detail, save_embedding, has_embedding, World, reloaded, find_by_id,
  is_job_processed, after_embedding, embed, is_described, described, processed, process_job,
  find_by_id,
}

-- An update that keeps a condition changes the first row that meets it, or leaves it.
first-update_where :
    (q p : Job → Bool) (f : Job → Job) (rows : List Job) (u : Job)
    → ((x : Job) → q (f x) ≡ q x)
    → first_where q rows ≡ some u
    → p u ≡ true
    → first_where q (update_where p f rows) ≡ some (f u)
unfolding first_where update_where
first-update_where q p f [] u keeps h t = absurd (ground arith)
first-update_where q p f (r ∷ rows) u keeps h t = elim (Bool-cases (q r)) [
  | inl y ↦
      let e : r ≡ u = ground arith in
      let there : p r ≡ true = ap p e ∙ t in
      subst (λ b. first_where q ((if b then f r else r) ∷ update_where p f rows) ≡ some (f u))
        (sym there) (rw (keeps r, y) (ap (λ (x : Job). some (f x)) e))
  | inr n ↦
      let rest = first-update_where q p f rows u keeps (ground arith) t in
      let skipped : q (if p r then f r else r) ≡ false = elim (Bool-cases (p r)) [
        | inl x ↦ ap (λ b. q (if b then f r else r)) x ∙ keeps r ∙ n
        | inr x ↦ ap (λ b. q (if b then f r else r)) x ∙ n
      ] in
      rw (skipped, rest) refl
]

first-live :
    (provider id : Text) (rows : List Job) (u : Job)
    → find_by_key provider id rows ≡ some u
    → is_live u.deleted_at ≡ true
unfolding find_by_key first_where
first-live provider id [] u h = absurd (ground arith)
first-live provider id (r ∷ rows) u h =
    elim (Bool-cases (has_key provider id r && is_live r.deleted_at)) [
      | inl t ↦
          let e : r ≡ u = ground arith in
          subst (λ (x : Job). is_live x.deleted_at ≡ true) e (ground arith)
      | inr f ↦ first-live provider id rows u (ground arith)
    ]

module _ (provider key : Text) (jobs : List Job) (u : Job)
    (found : find_by_key provider key jobs ≡ some u) where
  is_u : has_job_id u.id u ≡ true
  is_u = let l = first-live provider key jobs u found in ground arith

  find-save_detail :
      (at : ℕ) (d : Text)
      → (v : Job) × (find_by_key provider key (save_detail at u.id d jobs) ≡ some v)
        × (v.detail ≡ d)
        × (v.embedding ≡ u.embedding)
        × (v.id ≡ u.id)
  unfolding find_by_key save_detail
  find-save_detail at d = (
    _,
    first-update_where (λ j. has_key provider key j && is_live j.deleted_at) (has_job_id u.id) _
        jobs u (λ x. refl) found is_u,
    refl,
    refl,
    refl,
  )

  find-save_embedding :
      (at : ℕ) (e : Vector)
      → (v : Job) × (find_by_key provider key (save_embedding at u.id e jobs) ≡ some v)
        × (v.detail ≡ u.detail)
        × (v.embedding ≡ some e)
  unfolding find_by_key save_embedding
  find-save_embedding at e = (
    _,
    first-update_where (λ j. has_key provider key j && is_live j.deleted_at) (has_job_id u.id) _
        jobs u (λ x. refl) found is_u,
    refl,
    refl,
  )

-- Whether a posting's description is to be stored over the one that the row has
abbrev is_to_store : Option Text → Text → Bool
is_to_store none old = false
is_to_store (some d) old = is_described old d

-- The row with the key is embedded, and needs no description.
abbrev IsIngested : JobPost → List Job → Type 0
IsIngested post jobs =
    (v : Job) × (find_by_key post.provider post.id jobs ≡ some v)
    × (has_embedding v.embedding ≡ true)
    × (is_to_store post.details v.detail ≡ false)

-- An embedder that gives no empty vector
abbrev pub IsEmbedder : (Text → Result ForeignError Vector) → Type 0
IsEmbedder e = (t : Text) (v : Vector) → e t ≡ ok v → is_empty v ≡ false

reloaded-world : (w w' : World) (o : Option Job) (j : Job) → reloaded w o ≡ (ok j, w') → w ≡ w'
reloaded-world w w' none j h = absurd (ground arith)
reloaded-world w w' (some x) j h = ground arith

module _ (e : Text → Result ForeignError Vector) (embeds : IsEmbedder e) (provider key : Text) where
  -- What `embed` leaves of the row, from the row as it is in memory
  abbrev IsLeft : Text → World → Type 0
  IsLeft detail w =
      (v : Job) × (find_by_key provider key w.jobs ≡ some v)
      × (has_embedding v.embedding ≡ true)
      × (v.detail ≡ detail)

  after_embedding-IsLeft :
      (at : ℕ) (u row j : Job) (w w' : World) (r : Result ForeignError Vector)
      → find_by_key provider key w.jobs ≡ some row
      → row.id ≡ u.id
      → row.detail ≡ u.detail
      → e u.detail ≡ r
      → after_embedding at u w r ≡ (ok j, w')
      → IsLeft u.detail w'
  after_embedding-IsLeft at u row j w w' (err x) found same detail given h = absurd (ground arith)
  after_embedding-IsLeft at u row j w w' (ok vec) found same detail given h =
      let (v, there, kept, embedded) = find-save_embedding provider key w.jobs row found at vec in
      let jobs = save_embedding at u.id vec w.jobs in
      let world = reloaded-world _ w' (find_by_id u.id jobs) j h in
      let non_empty : has_embedding (some vec) ≡ true = ap not (embeds u.detail vec given) in
      (
        v,
        sym (ap (λ (x : World). find_by_key provider key x.jobs) world)
            ∙ ap (λ i. find_by_key provider key (save_embedding at i vec w.jobs)) (sym same)
            ∙ there,
        ap has_embedding embedded ∙ non_empty,
        kept ∙ detail,
      )

  embed-IsLeft :
      (at : ℕ) (u row j : Job) (w w' : World)
      → find_by_key provider key w.jobs ≡ some row
      → row.id ≡ u.id
      → row.detail ≡ u.detail
      → row.embedding ≡ u.embedding
      → embed e at u w ≡ (ok j, w')
      → IsLeft u.detail w'
  unfolding embed
  embed-IsLeft at u row j w w' found same detail embedding h =
      elim (Bool-cases (has_embedding u.embedding)) [
        | inl t ↦
            let kept : w ≡ w' = ground (arith, t) in
            (
              row,
              sym (ap (λ (x : World). find_by_key provider key x.jobs) kept) ∙ found,
              ap has_embedding embedding ∙ t,
              detail,
            )
        | inr f ↦ elim (Bool-cases (is_empty (trim_space u.detail))) [
          | inl t ↦ absurd (ground (arith, t, f))
          | inr n ↦
              after_embedding-IsLeft at u row j w w' (e u.detail) found same detail refl
                (ground (arith, n, f))
        ]
      ]

  described-IsLeft :
      (at : ℕ → ℕ) (o : Option Text) (u j : Job) (w w' : World)
      → find_by_key provider key w.jobs ≡ some u
      → described e at o u w ≡ (ok j, w')
      → (v : Job) × (find_by_key provider key w'.jobs ≡ some v)
        × (has_embedding v.embedding ≡ true)
        × (is_to_store o v.detail ≡ false)
  described-IsLeft at none u j w w' found h =
      let (v, there, embedded, detail) = embed-IsLeft (at 2) u u j w w' found refl refl refl h in
      (v, there, embedded, refl)
  described-IsLeft at (some d) u j w w' found h = elim (Bool-cases (is_described u.detail d)) [
    | inl t ↦
        let (row, stored, changed, embedding, id) =
          find-save_detail provider key w.jobs u found (at 1) d in
        let (v, there, embedded, detail) =
          embed-IsLeft (at 2) (record u { detail = d; visited = true }) row j
            (record w { jobs = save_detail (at 1) u.id d w.jobs }) w' stored id changed embedding
            (ground (arith, t)) in
        (v, there, embedded, ap (λ x. is_described x d) detail ∙ never (is_empty d))
    | inr f ↦
        let (v, there, embedded, detail) =
          embed-IsLeft (at 2) u u j w w' found refl refl refl (ground (arith, f)) in
        (v, there, embedded, ap (λ x. is_described x d) detail ∙ f)
  ]
    where
      never : (b : Bool) → (b && not b) ≡ false
      never true = refl
      never false = refl

module _ (e : Text → Result ForeignError Vector) (post : JobPost) where
  upsert-filled :
      (id now : ℕ) (jobs jobs' : List Job) (j : Job)
      → upsert_job id now post jobs ≡ (ok j, jobs')
      → (is_empty post.provider || is_empty post.id) ≡ false
  unfolding upsert_job
  upsert-filled id now jobs jobs' j h =
      elim (Bool-cases (is_empty post.provider || is_empty post.id)) [
        | inl t ↦ absurd (ground (arith, t))
        | inr f ↦ f
      ]

  -- A posting that was ingested is left as it is.
  described-again :
      (at : ℕ → ℕ) (o : Option Text) (v : Job) (w : World)
      → has_embedding v.embedding ≡ true
      → is_to_store o v.detail ≡ false
      → described e at o v w ≡ (ok v, w)
  unfolding embed
  described-again at none v w t f = ground (arith, t)
  described-again at (some d) v w t f = ground (arith, t, f)

  process_job-again :
      (id : ℕ) (at : ℕ → ℕ) (v : Job) (w : World)
      → (is_empty post.provider || is_empty post.id) ≡ false
      → find_by_key post.provider post.id w.jobs ≡ some v
      → has_embedding v.embedding ≡ true
      → is_to_store post.details v.detail ≡ false
      → process_job e id at post w ≡ (ok v, w)
  unfolding process_job upsert_job find_by_key
  process_job-again id at v w filled found embedded nothing =
      let there : exists_where (has_key post.provider post.id) w.jobs ≡ true =
        first-exists (λ j. has_key post.provider post.id j && is_live j.deleted_at)
          (has_key post.provider post.id) w.jobs v found (λ s t. ground arith) in
      rw (filled, there, found) (described-again at post.details v w embedded nothing)

  processed-ok :
      (at : ℕ → ℕ) (w w' : World) (r : Result StepError Job × List Job) (j : Job)
      → processed e at post w r ≡ (ok j, w')
      → (u : Job) × (r ≡ (ok u, r.1))
        × (described e at post.details u (record w { jobs = r.1 }) ≡ (ok j, w'))
  processed-ok at w w' (err x, jobs) j h = absurd (ground arith)
  processed-ok at w w' (ok u, jobs) j h = (u, refl, h)

  -- A posting that was processed is not embedded again: processing it once more, at whatever time,
  -- calls no embedder, changes no row and succeeds with the posting's row, which is embedded, if the
  -- embedder gives no empty vector.
  pub process_job-twice :
      (id again : ℕ) (at later : ℕ → ℕ) (j : Job) (w w' : World)
      → IsEmbedder e
      → process_job e id at post w ≡ (ok j, w')
      → (v : Job) × (process_job e again later post w' ≡ (ok v, w'))
        × (is_job_processed post.provider post.id w'.jobs ≡ some v)
  unfolding process_job is_job_processed
  process_job-twice id again at later j w w' embeds h =
      let upserted = upsert_job id (at 0) post w.jobs in
      let (u, stored, rest) = processed-ok at w w' upserted j h in
      let (_, found, _) = upsert_job-ok id (at 0) post w.jobs upserted.1 u stored in
      let (v, there, embedded, nothing) =
        described-IsLeft e embeds post.provider post.id at post.details u j
          (record w { jobs = upserted.1 }) w' found rest in
      let filled = upsert-filled id (at 0) w.jobs upserted.1 u stored in
      (
        v,
        process_job-again again later v w' filled there embedded nothing,
        rw there (rw embedded refl),
      )
