-- ===== src/Tests/SavedSearches.antt =====
-- What users do with their saved searches.
use mathlib.Core.Path.{subst}
use cv_evaluator.Prelude.{ℕ, zero, suc, ◌≡◌, refl, true, false, none, some, [], ◌∷◌, In, inl, arith}
use cv_evaluator.Prelude.Text.{Text, codes, text_eq, trim_space, trim_left, trim_right, is_space}
use cv_evaluator.Prelude.Table.{order_by, select, first_where, update_where}
use cv_evaluator.Models.{JobSearch, frequency_interval, frequency_daily}
use cv_evaluator.Pipeline.Failure.{ok, err}
use cv_evaluator.SavedSearches.{
  Param, ServiceError, CreateParams, UpdateParams, validate, new_search, create, list, update, get,
  changed, next_time,
}
use cv_evaluator.SavedSearches.Kept.{IsSaved}
use cv_evaluator.SavedSearches.History.{Op, apply, History, empty, step, History-IsSaved}
use cv_evaluator.SavedSearches.Owners.{apply-untouched}
use cv_evaluator.SavedSearches.Names.{validate-unnamed}

abbrev params : CreateParams
params = record {
  name = [];
  query = codes " go ";
  location = codes "Aarhus";
  frequency = [];
  enabled = none;
}

abbrev creation : Op
creation = Op.create_search 1 10 7 params

-- The search that is created: its name is the query, and it is due at once.
abbrev made : JobSearch
made = record {
  id = 1;
  created_at = 10;
  updated_at = 10;
  deleted_at = none;
  user_id = 7;
  name = codes "go";
  query = codes "go";
  location = codes "Aarhus";
  frequency = frequency_daily;
  enabled = true;
  last_run_at = none;
  next_run_at = some 10;
}

creates : apply creation [] ≡ made ∷ []
unfolding apply create new_search validate frequency_interval text_eq trim_space trim_left
    trim_right is_space
creates = refl

history : History (made ∷ [])
history = subst History creates (step empty creation (λ r i. elim i [ ]))

History-IsSaved_example : IsSaved made
History-IsSaved_example = History-IsSaved history made (inl refl)

-- Another user tries to delete it.
apply-untouched_example : In made (apply (Op.delete_search 20 8 1) (made ∷ []))
apply-untouched_example =
    apply-untouched (Op.delete_search 20 8 1) 8 made history refl (inl refl) (λ e. omega arith)

abbrev disable : UpdateParams
disable = record {
  name = none;
  query = none;
  location = none;
  frequency = none;
  enabled = some false;
}

disables : update 30 7 1 disable (made ∷ []) ≡ (
  ok (record made { enabled = false; next_run_at = none; updated_at = 30 }),
  record made { enabled = false; next_run_at = none; updated_at = 30 } ∷ [],
)
unfolding update get validate changed next_time frequency_interval text_eq first_where update_where
disables = refl

abbrev zeros : ℕ → Text
zeros zero = []
zeros (suc n) = 48 ∷ zeros n

validate-unnamed_example :
    validate (record made { name = []; query = zeros 101 }) ≡ err (ServiceError.invalid Param.name)
validate-unnamed_example =
    validate-unnamed (record made { name = []; query = zeros 101 }) refl (omega arith) (omega arith)
      (omega arith)

-- The newest search first; other users' and deleted ones are not listed.
lists :
    list 7 (
      made
      ∷ record made { id = 2; created_at = 20 }
      ∷ record made { user_id = 8 }
      ∷ record made { deleted_at = some 5 }
      ∷ [])
    ≡ record made { id = 2; created_at = 20 } ∷ made ∷ []
unfolding list order_by select
lists = refl
