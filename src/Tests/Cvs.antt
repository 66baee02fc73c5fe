-- ===== src/Tests/Cvs.antt =====
-- The upload of a CV with a section that is empty, and of one with no other section.
use cv_evaluator.Prelude.{ℕ, ◌+◌, ◌≡◌, refl, some, List, [], ◌∷◌}
use cv_evaluator.Prelude.Text.{Text, codes}
use cv_evaluator.Prelude.Table.{first_where, update_where}
use cv_evaluator.Pipeline.Failure.{ok, err}
use cv_evaluator.Users.Cvs.{
  Value, Services, CvError, CvTables, new_cv, section_rows, process_cv, upload_cv, get_cv,
  delete_cv,
}
use cv_evaluator.Users.Cvs.Uploads.{Uploaded, process_cv-Uploaded}

abbrev json : Value → Text
json Value.null = codes "null"
json (Value.string s) = s
json (Value.array xs) = codes "[]"
json (Value.object xs) = codes "{}"
json (Value.other s) = s

abbrev services : List (Text × Value) → Services
services sections = record {
  extract = λ file. ok file;
  create_embedding = λ text. ok (3 ∷ []);
  cleanup_cv = λ text. ok text;
  unmarshal = λ text. ok sections;
  marshal = λ v. ok (json v);
}

abbrev skills : List (Text × Value)
skills = (codes "skills", Value.string (codes "Go")) ∷ (codes "awards", Value.array []) ∷ []

abbrev ids : ℕ → ℕ
ids k = 20 + k

abbrev nothing : CvTables
nothing = record { cvs = []; sections = [] }

process_cv-Uploaded_example :
    Uploaded
      (services skills)
      9
      ids
      50
      7
      nothing
      (codes "CV")
      (process_cv (services skills) 9 ids 50 7 nothing (codes "CV"))
process_cv-Uploaded_example = process_cv-Uploaded (services skills) 9 ids 50 7 nothing (codes "CV")

-- With no section to store the upload fails, and the CV is there.
fails : upload_cv (services []) 9 ids 50 7 nothing (some (ok (codes "CV"))) ≡ (
  some CvError.empty_slice,
  record { cvs = new_cv 9 50 7 (codes "CV") (3 ∷ []) ∷ []; sections = [] },
)
unfolding upload_cv process_cv section_rows
fails = refl

deletes :
    get_cv 7 9 (delete_cv 60 7 9 (new_cv 9 50 7 (codes "CV") (3 ∷ []) ∷ [])).1
    ≡ err CvError.cv_not_found
unfolding get_cv delete_cv first_where update_where
deletes = refl
