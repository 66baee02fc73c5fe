-- ===== src/SavedSearches/Names.antt =====
-- The default name of a saved search.
use cv_evaluator.Prelude.{◌≤◌, ◌<◌, ◌≡◌, [], length, arith}
use cv_evaluator.Models.{JobSearch}
use cv_evaluator.Pipeline.Failure.{err}
use cv_evaluator.SavedSearches.{
  Param, ServiceError, validate, max_name_length, max_query_length, max_location_length,
}

-- A search without a name, whose query is longer than a name may be but not longer than a query may
-- be, is refused for its name, since the name defaults to the query.
pub validate-unnamed :
    (r : JobSearch)
    → r.name ≡ []
    → max_name_length < length r.query
    → length r.query ≤ max_query_length
    → length r.location ≤ max_location_length
    → validate r ≡ err (ServiceError.invalid Param.name)
unfolding validate
validate-unnamed r unnamed long short near = ground arith
