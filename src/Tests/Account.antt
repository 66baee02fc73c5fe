-- ===== src/Tests/Account.antt =====
-- The deletion and the export of an account at a small database.
use cv_evaluator.Prelude.{
  ℕ, ◌≡◌, ◌≢◌, refl, ap, Bool, true, false, none, some, List, [], ◌∷◌, In, inl, inr, arith, ◌==◌,
}
use cv_evaluator.Prelude.Text.{Text, codes}
use cv_evaluator.Prelude.Table.{exists_where, select, count_where}
use cv_evaluator.Models.{
  Cv, SectionEmbedding, JobSearch, SearchResult, Evaluation, EvaluationScore, EvaluationStatus,
}
use cv_evaluator.Users.{User}
use cv_evaluator.Pipeline.Failure.{ok}
use cv_evaluator.Pipeline.Searches.{to_search}
use cv_evaluator.Pipeline.Postings.{upsert_search_result}
use cv_evaluator.Pipeline.Evaluate.{Evaluated, record_result}
use cv_evaluator.Account.{
  Database, Deleted, delete, run_steps, delete_scores, delete_evaluations, delete_results,
  delete_searches, delete_sections, delete_cvs, delete_keys, delete_suggestions, delete_users,
  id_in, owns_result, owns_section, owns_evaluation, owns_score, owned_searches, owned_cvs,
  owned_results, owned_evaluations,
}
use cv_evaluator.Account.Gone.{IsForgotten, delete_lem, ApartResult, ApartEvaluation, ApartSection}
use cv_evaluator.Account.Late.{delete-late}
use cv_evaluator.Account.Exports.{export}
use cv_evaluator.Account.Apart.{IsSeparate, export-delete}
use cv_evaluator.Tests.Samples.{job, search, result, config}

abbrev user : ℕ → User
user id = record {
  id = id;
  created_at = 1;
  updated_at = 1;
  deleted_at = none;
  first_name = [];
  last_name = [];
  email = [];
  phone = [];
  password = [];
  password_changed_at = none;
}

abbrev cv : Cv
cv = record {
  id = 9;
  created_at = 1;
  updated_at = 1;
  deleted_at = none;
  user_id = 1;
  extracted_content = codes "Go";
  full_embedding = [];
}

abbrev section : SectionEmbedding
section = record {
  id = 10;
  created_at = 1;
  updated_at = 1;
  deleted_at = none;
  user_id = 1;
  cv_id = 9;
  section_heading = codes "Skills";
  section = codes "Go";
  embedding = [];
}

abbrev evaluation : Evaluation
evaluation = record {
  id = 5;
  created_at = 50;
  updated_at = 50;
  search_result_id = 3;
  cv_id = 9;
  overall_score = 80;
  strengths = [];
  missing_skills = [];
  summary = [];
  raw_response = [];
  model = [];
  prompt_version = [];
  status = EvaluationStatus.completed;
  error = [];
}

abbrev evaluated_result : SearchResult
evaluated_result = record result { evaluation_id = some 5 }

abbrev score : EvaluationScore
score = record { evaluation_id = 5; criterion = codes "skills"; score = 70; reason = [] }

-- The first user has a row in most tables, the second one only an account.
abbrev db : Database
db = record {
  users = user 1 ∷ user 2 ∷ [];
  cvs = cv ∷ [];
  sections = section ∷ [];
  jobs = job ∷ [];
  searches = search ∷ [];
  results = evaluated_result ∷ [];
  store = record { evaluations = evaluation ∷ []; scores = score ∷ [] };
  api_keys = [];
  suggestions = [];
}

deletes_all : (delete 1 db).1 ≡ record {
  users = user 2 ∷ [];
  cvs = [];
  sections = [];
  jobs = job ∷ [];
  searches = [];
  results = [];
  store = record { evaluations = []; scores = [] };
  api_keys = [];
  suggestions = [];
}
unfolding delete run_steps delete_scores delete_evaluations delete_results delete_searches
    delete_sections delete_cvs delete_keys delete_suggestions delete_users id_in owns_result
    owns_section owns_evaluation owns_score owned_searches owned_cvs owned_results owned_evaluations
    exists_where select count_where
deletes_all = refl

first_exists : exists_where (λ (u : User). u.id == 1) db.users ≡ true
unfolding exists_where
first_exists = refl

second_exists : exists_where (λ (u : User). u.id == 2) db.users ≡ true
unfolding exists_where
second_exists = refl

delete_lem_example :
    ((report : List Deleted) × ((delete 1 db).0 ≡ ok report)) × IsForgotten 1 db (delete 1 db).1
delete_lem_example = delete_lem 1 db first_exists

abbrev evaluated : Evaluated
evaluated = record {
  cv = some 9;
  response = none;
  raw = codes "{";
  match_error = some (record { canceled = false; message = [] });
  error = none;
}

same_id : (to_search search).id ≡ 1
unfolding to_search
same_id = refl

delete-late_example :
    let left = (delete 1 db).1 in
    (record_result config 60 6 evaluated_result evaluated false
        (record { results = left.results; store = left.store })
      ≡ some (record { results = left.results; store = left.store }))
    × (upsert_search_result 6 60 (to_search search) 7 left.searches left.results ≡ left.results)
delete-late_example =
    delete-late 1 db first_exists (tt, tt) (tt, tt) evaluated_result (inl refl) refl search
      (inl refl) refl config 60 6 evaluated_result evaluated false refl (to_search search) 7 same_id

-- Everything in the tables is the first user's.
first_search : (s : JobSearch) → In s db.searches → s.user_id ≢ 2
first_search s (inl e) q = absurd (omega (arith, ap (λ (x : JobSearch). x.user_id) e, q))
first_search s (inr i) q = elim i [ ]

first_cv : (c : Cv) → In c db.cvs → c.user_id ≢ 2
first_cv c (inl e) q = absurd (omega (arith, ap (λ (x : Cv). x.user_id) e, q))
first_cv c (inr i) q = elim i [ ]

first_result : (r : SearchResult) → In r db.results → ApartResult 2 db r
first_result r (inl e) = (
  λ q. absurd (omega (arith, ap (λ (x : SearchResult). x.user_id) e, q)),
  λ s i h. first_search s i,
)
first_result r (inr i) = elim i [ ]

first_section : (s : SectionEmbedding) → In s db.sections → ApartSection 2 db s
first_section s (inl e) = (
  λ q. absurd (omega (arith, ap (λ (x : SectionEmbedding). x.user_id) e, q)),
  λ c i h. first_cv c i,
)
first_section s (inr i) = elim i [ ]

first_evaluation : (e : Evaluation) → ApartEvaluation 2 db e
first_evaluation e = (λ r i h. first_result r i, λ c i h. first_cv c i)

separate : IsSeparate 1 2 db
separate = record {
  results = λ r i o. first_result r i;
  evaluations = λ e i r j o h. first_evaluation e;
  scores = λ s i e j r k o h q d m n. first_evaluation d;
  sections = λ s i o. first_section s i;
}

abbrev collates : Text → Text → Bool
collates a b = false

export-delete_example : export collates 60 1 (delete 2 db).1 ≡ export collates 60 1 db
export-delete_example =
    export-delete collates 60 1 2 db (λ e. absurd (omega arith)) second_exists separate
