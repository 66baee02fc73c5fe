-- ===== src/Tests/Postings.antt =====
-- A portal's run: two postings, of which one has a blank id.
use cv_evaluator.Prelude.{ℕ, ◌+◌, ◌≡◌, refl, false, none, List, [], ◌∷◌, ◌==◌, if◌then◌else◌}
use cv_evaluator.Prelude.Text.{Text, codes, text_eq, trim_space, trim_left, trim_right, is_space}
use cv_evaluator.Prelude.Table.{exists_where, first_where}
use cv_evaluator.Pipeline.Failure.{ForeignError, Result, ok, err}
use cv_evaluator.Pipeline.Searches.{to_search}
use cv_evaluator.Pipeline.Postings.{
  JobPost, Tables, StoreEnv, SearchEnv, to_model, upsert_job, find_by_key, new_result,
  upsert_search_result, store_post, store_posts, search_portal, search_from,
}
use cv_evaluator.Pipeline.Postings.Repeats.{store_posts-twice}
use cv_evaluator.Pipeline.Postings.Keeps.{Extends, store_posts-Extends}
use cv_evaluator.Tests.Samples.{config, timeout, search}

abbrev post : JobPost
post = record {
  id = codes "h2";
  provider = [];
  title = codes "Go developer";
  company = codes "Acme";
  location = codes "Aarhus";
  posted_at = [];
  details_url = [];
  details = none;
}

abbrev posts : List JobPost
posts = record post { id = codes " " } ∷ post ∷ []

abbrev env : ℕ → StoreEnv
env n = record {
  now = n;
  new_job_id = λ k. n + k;
  new_result_id = λ k. n + k;
  job_error = λ k. none;
  result_error = λ k. none;
}

abbrev portal : Text
portal = codes "jobindex"

abbrev tables : Tables
tables = record { searches = search ∷ []; jobs = []; results = [] }

abbrev stored : Tables
stored = record {
  searches = search ∷ [];
  jobs = to_model 101 100 (record post { provider = portal }) ∷ [];
  results = new_result 101 100 (to_search search) 101 ∷ [];
}

stores : store_posts (env 100) (to_search search) portal 0 posts tables ≡ (none, stored)
unfolding store_posts store_post upsert_job upsert_search_result find_by_key first_where
    exists_where to_search to_model new_result trim_space trim_left trim_right is_space text_eq
stores = refl

store_posts-twice_example :
    store_posts (env 200) (to_search search) portal 0 posts stored ≡ (none, stored)
store_posts-twice_example =
    store_posts-twice (env 100) (env 200) (to_search search) portal 0 0 posts tables stored
      (λ k. (refl, refl)) stores

store_posts-Extends_example :
    Extends tables (store_posts (env 100) (to_search search) portal 0 posts tables).1
store_posts-Extends_example = store_posts-Extends (env 100) (to_search search) portal 0 posts tables

-- The portal answers the second time.
abbrev second_time : ℕ → Result ForeignError (List JobPost)
second_time n = if n == 2 then ok posts else err timeout

abbrev answers : SearchEnv
answers = record { answer = second_time; cancelled = λ n. false; sleep = λ n. none }

finds : search_portal config answers ≡ ok posts
unfolding search_portal search_from
finds = refl
