-- ===== src/Users/Cvs/Uploads.antt =====
-- What an upload leaves in the tables.
use mathlib.Core.Path.{subst}
use cv_evaluator.Prelude.{
  sym, ℕ, ◌+◌, ◌≡◌, ◌≢◌, ◌⊎◌, refl, not, Option, none, some, List, [], ◌∷◌, ◌++◌, arith, Bool-cases,
  inl, inr,
}
use cv_evaluator.Prelude.Text.{Text}
use cv_evaluator.Prelude.Table.{select}
use cv_evaluator.Models.{Cv, SectionEmbedding, Vector}
use cv_evaluator.Pipeline.Failure.{ForeignError, Result, ok, err}
use cv_evaluator.Users.Cvs.{
  Value, is_empty_section, Services, CvError, CvTables, new_cv, Rows, section_row, with_row,
  embedded, marshalled, section_rows, create_rows, sectioned, cleaned, embedded_cv, extracted,
  process_cv,
}

-- The sections that are not empty
abbrev pub filled : List (Text × Value) → List (Text × Value)
filled sections = select (λ x. not (is_empty_section x.1)) sections

module _ (s : Services) (ids : ℕ → ℕ) (now user cv : ℕ) where
  -- A row of the user's CV for a section, with the embedding of what the section is as JSON
  pub record IsRow (section : Text × Value) (r : SectionEmbedding) : Type 0 where
    pub heading : r.section_heading ≡ section.0
    pub text : s.marshal section.1 ≡ ok r.section
    pub embedding : s.create_embedding r.section ≡ ok r.embedding
    pub owner : r.user_id ≡ user
    pub of_cv : r.cv_id ≡ cv
    pub live : r.deleted_at ≡ none

  abbrev pub AreRows : List (Text × Value) → List SectionEmbedding → Type 0
  AreRows [] [] = Unit
  AreRows [] (r ∷ rows) = ⊥
  AreRows (x ∷ sections) [] = ⊥
  AreRows (x ∷ sections) (r ∷ rows) = IsRow x r × AreRows sections rows

  with_row-ok :
      (r : SectionEmbedding) (rest : Rows) (rows : List SectionEmbedding)
      → with_row s ids now user cv r rest ≡ ok rows
      → (rs : List SectionEmbedding) × (rest ≡ ok rs) × (rows ≡ r ∷ rs)
  with_row-ok r (err e) rows h = absurd (ground arith)
  with_row-ok r (ok rs) rows h = (rs, refl, ground arith)

  embedded-ok :
      (k : ℕ) (v : Value) (heading text : Text) (x : Result ForeignError Vector)
      (sections : List (Text × Value)) (rest : Rows) (rows : List SectionEmbedding)
      → s.marshal v ≡ ok text
      → s.create_embedding text ≡ x
      → ((rs : List SectionEmbedding) → rest ≡ ok rs → AreRows sections rs)
      → embedded s ids now user cv k heading text x rest ≡ ok rows
      → AreRows ((heading, v) ∷ sections) rows
  embedded-ok k v heading text (err e) sections rest rows m c more h = absurd (ground arith)
  embedded-ok k v heading text (ok e) sections rest rows m c more h =
      let row = section_row s ids now user cv k heading text e in
      let (rs, same, cons) = with_row-ok row rest rows h in
      subst (AreRows ((heading, v) ∷ sections)) (sym cons) (
        record { heading = refl; text = m; embedding = c; owner = refl; of_cv = refl; live = refl },
        more rs same,
      )

  marshalled-ok :
      (k : ℕ) (v : Value) (heading : Text) (x : Result ForeignError Text)
      (sections : List (Text × Value)) (rest : Rows) (rows : List SectionEmbedding)
      → s.marshal v ≡ x
      → ((rs : List SectionEmbedding) → rest ≡ ok rs → AreRows sections rs)
      → marshalled s ids now user cv k heading x rest ≡ ok rows
      → AreRows ((heading, v) ∷ sections) rows
  marshalled-ok k v heading (err e) sections rest rows m more h = absurd (ground arith)
  marshalled-ok k v heading (ok text) sections rest rows m more h =
      embedded-ok k v heading text (s.create_embedding text) sections rest rows m refl more h

  section_rows-AreRows :
      (k : ℕ) (sections : List (Text × Value)) (rows : List SectionEmbedding)
      → section_rows s ids now user cv k sections ≡ ok rows
      → AreRows (filled sections) rows
  unfolding section_rows select
  section_rows-AreRows k [] [] h = tt
  section_rows-AreRows k [] (r ∷ rows) h = absurd (ground arith)
  section_rows-AreRows k ((heading, v) ∷ sections) rows h = elim (Bool-cases (is_empty_section v)) [
    | inl t ↦ rw t (section_rows-AreRows (k + 1) sections rows (ground (arith, t)))
    | inr f ↦ rw f (
        marshalled-ok k v heading (s.marshal v) (filled sections)
          (section_rows s ids now user cv (k + 1) sections) rows refl
          (section_rows-AreRows (k + 1) sections) (ground (arith, f)))
  ]

module _ (s : Services) (id : ℕ) (ids : ℕ → ℕ) (now user : ℕ) (t : CvTables) (file : Text) where
  -- The CV's row: a new row of the user's, with the file's text and its embedding
  pub record HasRow (t' : CvTables) : Type 0 where
    pub content : Text
    pub vector : Vector
    pub extracted : s.extract file ≡ ok content
    pub embedded : s.create_embedding content ≡ ok vector
    pub cv : Cv
    pub cvs : t'.cvs ≡ cv ∷ t.cvs
    pub is_new : cv.id ≡ id
    pub owner : cv.user_id ≡ user
    pub text : cv.extracted_content ≡ content
    pub embedding : cv.full_embedding ≡ vector
    pub created : cv.created_at ≡ now
    pub live : cv.deleted_at ≡ none

  -- The rows of the sections that the language model finds in the text
  pub record HasSections (content : Text) (t' : CvTables) : Type 0 where
    pub json : Text
    pub sections : List (Text × Value)
    pub rows : List SectionEmbedding
    pub cleaned : s.cleanup_cv content ≡ ok json
    pub decoded : s.unmarshal json ≡ ok sections
    pub are_rows : AreRows s ids now user id (filled sections) rows
    pub some_row : filled sections ≢ []
    pub added : t'.sections ≡ rows ++ t.sections

  -- With no error, the CV and all its sections; with one, the CV alone or nothing
  abbrev pub Uploaded : Option CvError × CvTables → Type 0
  Uploaded (none, t') = (h : HasRow t') × HasSections h.content t'
  Uploaded (some e, t') = (t'.sections ≡ t.sections) × ((t'.cvs ≡ t.cvs) ⊎ HasRow t')

  module _ (content : Text) (v : Vector) (x : s.extract file ≡ ok content)
      (c : s.create_embedding content ≡ ok v) where
    abbrev stored : CvTables
    stored = record t { cvs = new_cv id now user content v ∷ t.cvs }

    has_row : HasRow stored
    has_row = record {
      content = content;
      vector = v;
      extracted = x;
      embedded = c;
      cv = new_cv id now user content v;
      cvs = refl;
      is_new = refl;
      owner = refl;
      text = refl;
      embedding = refl;
      created = refl;
      live = refl;
    }

    create_rows-Uploaded :
        (json : Text) (sections : List (Text × Value)) (r : Rows)
        → s.cleanup_cv content ≡ ok json
        → s.unmarshal json ≡ ok sections
        → section_rows s ids now user id 0 sections ≡ r
        → Uploaded (create_rows stored r)
    create_rows-Uploaded json sections (err e) j u h = (refl, inr has_row)
    create_rows-Uploaded json sections (ok []) j u h = (refl, inr has_row)
    create_rows-Uploaded json sections (ok (row ∷ rows)) j u h =
        let are = section_rows-AreRows s ids now user id 0 sections (row ∷ rows) h in
        (
          record {
            content = content;
            vector = v;
            extracted = x;
            embedded = c;
            cv = new_cv id now user content v;
            cvs = refl;
            is_new = refl;
            owner = refl;
            text = refl;
            embedding = refl;
            created = refl;
            live = refl;
          },
          record {
            json = json;
            sections = sections;
            rows = row ∷ rows;
            cleaned = j;
            decoded = u;
            are_rows = are;
            some_row = λ q. subst (λ l. AreRows s ids now user id l (row ∷ rows)) q are;
            added = refl;
          },
        )

    sectioned-Uploaded :
        (json : Text) (r : Result ForeignError (List (Text × Value)))
        → s.cleanup_cv content ≡ ok json
        → s.unmarshal json ≡ r
        → Uploaded (sectioned s id ids now user t stored r)
    sectioned-Uploaded json (err e) j u = (refl, inr has_row)
    sectioned-Uploaded json (ok sections) j u =
        create_rows-Uploaded json sections (section_rows s ids now user id 0 sections) j u refl

    cleaned-Uploaded :
        (r : Result ForeignError Text)
        → s.cleanup_cv content ≡ r
        → Uploaded (cleaned s id ids now user t stored r)
    cleaned-Uploaded (err e) j = (refl, inr has_row)
    cleaned-Uploaded (ok json) j = sectioned-Uploaded json (s.unmarshal json) j refl

  embedded_cv-Uploaded :
      (content : Text) (r : Result ForeignError Vector)
      → s.extract file ≡ ok content
      → s.create_embedding content ≡ r
      → Uploaded (embedded_cv s id ids now user t content r)
  embedded_cv-Uploaded content (err e) x c = (refl, inl refl)
  embedded_cv-Uploaded content (ok v) x c =
      cleaned-Uploaded content v x c (s.cleanup_cv content) refl

  extracted-Uploaded :
      (r : Result ForeignError Text)
      → s.extract file ≡ r
      → Uploaded (cv_evaluator.Users.Cvs.extracted s id ids now user t r)
  extracted-Uploaded (err e) x = (refl, inl refl)
  extracted-Uploaded (ok content) x =
      embedded_cv-Uploaded content (s.create_embedding content) x refl

  -- An upload without an error stores the CV with its text and embedding, and for each section that
  -- is not empty, of which there is one at least, a row with the section's heading, its JSON and the
  -- embedding of that. An upload with an error stores no section, and either nothing or the CV.
  pub process_cv-Uploaded : Uploaded (process_cv s id ids now user t file)
  unfolding process_cv
  process_cv-Uploaded = extracted-Uploaded (s.extract file) refl
