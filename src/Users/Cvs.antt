-- ===== src/Users/Cvs.antt =====
-- internal/services/users/user.go: the storage of CVs. The extractor, the embedder, the language
-- model and encoding/json are parameters.
pub mod Uploads
use cv_evaluator.Prelude.{
  ℕ, ◌+◌, Bool, true, false, not, ◌&&◌, Option, none, some, List, [], ◌∷◌, ◌++◌, ◌==◌, ltb,
  is_empty, if◌then◌else◌,
}
use cv_evaluator.Prelude.Text.{Text, trim_space}
use cv_evaluator.Prelude.Table.{select, order_by, update_where, first_where, exists_where}
use cv_evaluator.Models.{Cv, SectionEmbedding, Vector, is_live}
use cv_evaluator.Pipeline.Failure.{ForeignError, Result, ok, err}

-- What json.Unmarshal makes of a section; the elements are JSON texts.
pub data Value : Type 0 where
  null : Value
  string : Text → Value
  array : List Text → Value
  object : List (Text × Text) → Value
  other : Text → Value

-- isEmptySection
unfoldable pub is_empty_section : Value → Bool
is_empty_section Value.null = true
is_empty_section (Value.string s) = is_empty (trim_space s)
is_empty_section (Value.array xs) = is_empty xs
is_empty_section (Value.object xs) = is_empty xs
is_empty_section (Value.other s) = false

-- `extract` is ExtractFromFile of a file's content, `unmarshal` has the sections in the order in
-- which the loop visits the map.
pub record Services : Type 0 where
  pub extract : Text → Result ForeignError Text
  pub create_embedding : Text → Result ForeignError Vector
  pub cleanup_cv : Text → Result ForeignError Text
  pub unmarshal : Text → Result ForeignError (List (Text × Value))
  pub marshal : Value → Result ForeignError Text

-- A missing file, ErrCVNotFound, gorm.ErrEmptySlice, and the errors of the services
pub data CvError : Type 0 where
  file_required cv_not_found empty_slice : CvError
  failed : ForeignError → CvError

pub record CvTables : Type 0 where
  pub cvs : List Cv
  pub sections : List SectionEmbedding

abbrev pub has_cv : ℕ → ℕ → Cv → Bool
has_cv user id c = (c.id == id && c.user_id == user) && is_live c.deleted_at

-- ListUserCVs: newest first
unfoldable pub list_user_cvs : ℕ → List Cv → List Cv
list_user_cvs user cvs =
    order_by (λ (a : Cv) (b : Cv). ltb b.created_at a.created_at)
      (select (λ (c : Cv). c.user_id == user && is_live c.deleted_at) cvs)

abbrev found : Option Cv → Result CvError Cv
found none = err CvError.cv_not_found
found (some c) = ok c

-- GetCV
unfoldable pub get_cv : ℕ → ℕ → List Cv → Result CvError Cv
get_cv user id cvs = found (first_where (has_cv user id) cvs)

-- DeleteCV: `none` for no error
unfoldable pub delete_cv : ℕ → ℕ → ℕ → List Cv → Option CvError × List Cv
delete_cv now user id cvs = (
  if exists_where (has_cv user id) cvs then none else some CvError.cv_not_found,
  update_where (has_cv user id) (λ (c : Cv). record c { deleted_at = some now }) cvs,
)

abbrev pub new_cv : ℕ → ℕ → ℕ → Text → Vector → Cv
new_cv id now user content v = record {
  id = id;
  created_at = now;
  updated_at = now;
  deleted_at = none;
  user_id = user;
  extracted_content = content;
  full_embedding = v;
}

abbrev pub Rows : Type 0
Rows = Result ForeignError (List SectionEmbedding)

module _ (s : Services) (ids : ℕ → ℕ) (now user cv : ℕ) where
  abbrev section_row : ℕ → Text → Text → Vector → SectionEmbedding
  section_row k heading text v = record {
    id = ids k;
    created_at = now;
    updated_at = now;
    deleted_at = none;
    user_id = user;
    cv_id = cv;
    section_heading = heading;
    section = text;
    embedding = v;
  }

  abbrev with_row : SectionEmbedding → Rows → Rows
  with_row r (err e) = err e
  with_row r (ok rows) = ok (r ∷ rows)

  abbrev embedded : ℕ → Text → Text → Result ForeignError Vector → Rows → Rows
  embedded k heading text (err e) rest = err e
  embedded k heading text (ok v) rest = with_row (section_row k heading text v) rest

  abbrev marshalled : ℕ → Text → Result ForeignError Text → Rows → Rows
  marshalled k heading (err e) rest = err e
  marshalled k heading (ok text) rest = embedded k heading text (s.create_embedding text) rest

  -- The loop over the sections: the rows, with `ids k` for the k-th section. The first error ends it.
  unfoldable pub section_rows : ℕ → List (Text × Value) → Rows
  section_rows k [] = ok []
  section_rows k ((heading, v) ∷ sections) =
      let rest = section_rows (k + 1) sections in
      if is_empty_section v then rest else marshalled k heading (s.marshal v) rest

-- Create of the rows, which fails for no rows
abbrev pub create_rows : CvTables → Rows → Option CvError × CvTables
create_rows t (err e) = (some (CvError.failed e), t)
create_rows t (ok []) = (some CvError.empty_slice, t)
create_rows t (ok (r ∷ rows)) = (none, record t { sections = (r ∷ rows) ++ t.sections })

module _ (s : Services) (id : ℕ) (ids : ℕ → ℕ) (now user : ℕ) (t : CvTables) where
  abbrev sectioned :
      CvTables → Result ForeignError (List (Text × Value)) → Option CvError × CvTables
  sectioned t' (err e) = (some (CvError.failed e), t')
  sectioned t' (ok sections) = create_rows t' (section_rows s ids now user id 0 sections)

  abbrev cleaned : CvTables → Result ForeignError Text → Option CvError × CvTables
  cleaned t' (err e) = (some (CvError.failed e), t')
  cleaned t' (ok json) = sectioned t' (s.unmarshal json)

  abbrev embedded_cv : Text → Result ForeignError Vector → Option CvError × CvTables
  embedded_cv content (err e) = (some (CvError.failed e), t)
  embedded_cv content (ok v) =
      cleaned (record t { cvs = new_cv id now user content v ∷ t.cvs }) (s.cleanup_cv content)

  abbrev extracted : Result ForeignError Text → Option CvError × CvTables
  extracted (err e) = (some (CvError.failed e), t)
  extracted (ok content) = embedded_cv content (s.create_embedding content)

  -- ProcessCV, for the content of a file; the statements of one call are taken one after the other.
  unfoldable pub process_cv : Text → Option CvError × CvTables
  process_cv file = extracted (s.extract file)

  -- UploadCV: the file that was sent, and what reading and copying it gives
  unfoldable pub upload_cv : Option (Result ForeignError Text) → Option CvError × CvTables
  upload_cv none = (some CvError.file_required, t)
  upload_cv (some (err e)) = (some (CvError.failed e), t)
  upload_cv (some (ok file)) = process_cv file
