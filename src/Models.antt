-- ===== src/Models.antt =====
-- internal/models and internal/entities: the rows of the tables. An id is the number that the
-- 16 bytes of a ULID spell, so that the order of ids is the order of the column. A time is a
-- number of nanoseconds, and `none` stands for NULL.
use cv_evaluator.Prelude.{ℕ, ◌+◌, ◌*◌, Bool, true, false, Option, none, some, List, if◌then◌else◌}
use cv_evaluator.Prelude.Text.{Text, codes, text_eq}

-- time.Second, time.Minute, time.Hour
abbrev pub second : ℕ
second = 1_000_000_000

abbrev pub minute : ℕ
minute = 60 * second

abbrev pub hour : ℕ
hour = 60 * minute

pub data JobStatus : Type 0 where
  new described processing embedded failed : JobStatus

-- The float32 values of an embedding, by their bit patterns.
abbrev pub Vector : Type 0
Vector = List ℕ

pub record Job : Type 0 where
  pub id : ℕ
  pub created_at : ℕ
  pub updated_at : ℕ
  pub deleted_at : Option ℕ
  pub provider : Text
  pub job_id : Text
  pub title : Text
  pub company : Text
  pub location : Text
  pub posted_at : Text
  pub details_url : Text
  pub visited : Bool
  pub status : JobStatus
  pub attempts : ℕ
  pub next_attempt_at : Option ℕ
  pub claimed_at : Option ℕ
  pub last_error : Text
  pub detail : Text
  pub embedding : Option Vector

pub data SearchResultStatus : Type 0 where
  new saved applied dismissed : SearchResultStatus

pub data EvaluationState : Type 0 where
  pending processing done failed : EvaluationState

pub record SearchResult : Type 0 where
  pub id : ℕ
  pub created_at : ℕ
  pub updated_at : ℕ
  pub job_search_id : ℕ
  pub user_id : ℕ
  pub job_id : ℕ
  pub status : SearchResultStatus
  pub evaluation_status : EvaluationState
  pub attempts : ℕ
  pub next_attempt_at : Option ℕ
  pub claimed_at : Option ℕ
  pub last_error : Text
  pub evaluation_id : Option ℕ
  pub overall_score : Option ℕ

pub data EvaluationStatus : Type 0 where
  pending completed failed : EvaluationStatus

pub record Evaluation : Type 0 where
  pub id : ℕ
  pub created_at : ℕ
  pub updated_at : ℕ
  pub search_result_id : ℕ
  pub cv_id : ℕ
  pub overall_score : ℕ
  pub strengths : List Text
  pub missing_skills : List Text
  pub summary : Text
  pub raw_response : Text
  pub model : Text
  pub prompt_version : Text
  pub status : EvaluationStatus
  pub error : Text

pub record EvaluationScore : Type 0 where
  pub evaluation_id : ℕ
  pub criterion : Text
  pub score : ℕ
  pub reason : Text

pub record Cv : Type 0 where
  pub id : ℕ
  pub created_at : ℕ
  pub updated_at : ℕ
  pub deleted_at : Option ℕ
  pub user_id : ℕ
  pub extracted_content : Text
  pub full_embedding : Vector

pub record SectionEmbedding : Type 0 where
  pub id : ℕ
  pub created_at : ℕ
  pub updated_at : ℕ
  pub deleted_at : Option ℕ
  pub user_id : ℕ
  pub cv_id : ℕ
  pub section_heading : Text
  pub section : Text
  pub embedding : Vector

pub data SuggestionStatus : Type 0 where
  submitted planned added declined : SuggestionStatus

pub record PortalSuggestion : Type 0 where
  pub id : ℕ
  pub created_at : ℕ
  pub updated_at : ℕ
  pub user_id : ℕ
  pub name : Text
  pub url : Text
  pub note : Text
  pub status : SuggestionStatus

pub record JobSearch : Type 0 where
  pub id : ℕ
  pub created_at : ℕ
  pub updated_at : ℕ
  pub deleted_at : Option ℕ
  pub user_id : ℕ
  pub name : Text
  pub query : Text
  pub location : Text
  pub frequency : Text
  pub enabled : Bool
  pub last_run_at : Option ℕ
  pub next_run_at : Option ℕ

-- FrequencyHourly, FrequencyDaily, FrequencyWeekly
abbrev pub frequency_hourly : Text
frequency_hourly = codes "hourly"

abbrev pub frequency_daily : Text
frequency_daily = codes "daily"

abbrev pub frequency_weekly : Text
frequency_weekly = codes "weekly"

-- FrequencyInterval: `none` for the false of its second result
unfoldable pub frequency_interval : Text → Option ℕ
frequency_interval f =
    if text_eq f frequency_hourly
    then some hour
    else if text_eq f frequency_daily
    then some (24 * hour)
    else if text_eq f frequency_weekly
    then some (7 * 24 * hour)
    else none

abbrev interval_or_daily : Option ℕ → ℕ
interval_or_daily none = 24 * hour
interval_or_daily (some d) = d

-- JobSearch.NextRun
unfoldable pub next_run : JobSearch → ℕ → ℕ
unfolding frequency_interval
next_run j from = from + interval_or_daily (frequency_interval j.frequency)

-- The scope that gorm puts on every statement over a model with a DeletedAt column.
abbrev pub is_live : Option ℕ → Bool
is_live none = true
is_live (some t) = false
