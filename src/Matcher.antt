-- ===== src/Matcher.antt =====
-- internal/services/matcher and internal/entities/matches.go: the LLM's evaluation of a CV against
-- a job, and how its answer is cleaned.
pub mod Lists
pub mod Breakdown
pub mod Overall
use cv_evaluator.Prelude.{
  ℕ, suc, ◌+◌, min, Bool, true, false, not, ◌&&◌, ◌||◌, Option, none, some, List, [], ◌∷◌, ◌==◌,
  leb, if◌then◌else◌, is_empty, length, take,
}
use cv_evaluator.Prelude.Text.{Text, codes, text_eq, trim_space, to_lower}
use cv_evaluator.Prelude.Int.{ℤ, pos, negsuc}

-- The names of EvaluationCriteria. What each tells the LLM is not modelled.
abbrev pub evaluation_criteria : List Text
evaluation_criteria =
    codes "skills"
    ∷ codes "experience"
    ∷ codes "seniority"
    ∷ codes "domain"
    ∷ codes "education"
    ∷ []

unfoldable pub text_in : Text → List Text → Bool
text_in t [] = false
text_in t (u ∷ us) = text_eq u t || text_in t us

-- IsEvaluationCriterion
unfoldable pub is_evaluation_criterion : Text → Bool
is_evaluation_criterion name = text_in name evaluation_criteria

-- RequirementMust, RequirementNice, RequirementMet, RequirementPartial, RequirementNotMet
abbrev pub requirement_must : Text
requirement_must = codes "must"

abbrev pub requirement_nice : Text
requirement_nice = codes "nice"

abbrev pub requirement_met : Text
requirement_met = codes "yes"

abbrev pub requirement_partial : Text
requirement_partial = codes "partial"

abbrev pub requirement_not_met : Text
requirement_not_met = codes "no"

pub record Requirement : Type 0 where
  pub requirement : Text
  pub importance : Text
  pub met : Text
  pub evidence : Text

-- A score as the LLM gives it: any `int`.
pub record RawScore : Type 0 where
  pub criterion : Text
  pub score : ℤ
  pub reason : Text

pub record CriterionScore : Type 0 where
  pub criterion : Text
  pub score : ℕ
  pub reason : Text

-- What the JSON decoder makes of the answer.
pub record RawResponse : Type 0 where
  pub requirements : List Requirement
  pub overall_score : ℤ
  pub breakdown : List RawScore
  pub strengths : List Text
  pub missing_skills : List Text
  pub summary : Text

pub record Response : Type 0 where
  pub requirements : List Requirement
  pub overall_score : ℕ
  pub breakdown : List CriterionScore
  pub strengths : List Text
  pub missing_skills : List Text
  pub summary : Text

abbrev pub max_list_items : ℕ
max_list_items = 5

abbrev pub max_requirements : ℕ
max_requirements = 20

abbrev pub must_have_cap : ℕ
must_have_cap = 69

-- clampScore
unfoldable pub clamp_score : ℤ → ℕ
clamp_score (pos n) = min 100 n
clamp_score (negsuc n) = 0

-- Response.Score
unfoldable pub score : List CriterionScore → Text → Option ℕ
score [] c = none
score (s ∷ ss) c = if text_eq s.criterion c then some s.score else score ss c

-- The loop of cleanList: `n` items are kept so far.
unfoldable pub clean_list_from : ℕ → List Text → List Text
clean_list_from n [] = []
clean_list_from n (item ∷ items) =
    let skip = clean_list_from n items in
    let rest = clean_list_from (n + 1) items in
    if is_empty (trim_space item)
    then skip
    else trim_space item ∷ (if n + 1 == max_list_items then [] else rest)

unfoldable pub clean_list : List Text → List Text
unfolding clean_list_from
clean_list items = clean_list_from 0 items

unfoldable pub normalize : Requirement → Requirement
normalize r = record {
  requirement = trim_space r.requirement;
  importance = to_lower (trim_space r.importance);
  met = to_lower (trim_space r.met);
  evidence = trim_space r.evidence;
}

-- The three tests of cleanRequirements, on a requirement that is normalised.
unfoldable pub is_well_formed : Requirement → Bool
is_well_formed r =
    not (is_empty r.requirement)
    && (text_eq r.importance requirement_must || text_eq r.importance requirement_nice)
    && (text_eq r.met requirement_met
        || text_eq r.met requirement_partial
        || text_eq r.met requirement_not_met)

-- The loop of cleanRequirements: `n` requirements are kept so far.
unfoldable pub clean_requirements_from : ℕ → List Requirement → List Requirement
clean_requirements_from n [] = []
clean_requirements_from n (r ∷ rs) =
    let skip = clean_requirements_from n rs in
    let rest = clean_requirements_from (n + 1) rs in
    if is_well_formed (normalize r)
    then normalize r ∷ (if n + 1 == max_requirements then [] else rest)
    else skip

unfoldable pub clean_requirements : List Requirement → List Requirement
unfolding clean_requirements_from
clean_requirements rs = clean_requirements_from 0 rs

-- The loop of decodeResponse over the breakdown: `seen` has the criteria that are kept so far.
unfoldable pub clean_breakdown_from : List Text → List RawScore → List CriterionScore
clean_breakdown_from seen [] = []
clean_breakdown_from seen (s ∷ ss) =
    let c = to_lower (trim_space s.criterion) in
    let skip = clean_breakdown_from seen ss in
    let rest = clean_breakdown_from (c ∷ seen) ss in
    if not (is_evaluation_criterion c) || text_in c seen
    then skip
    else record { criterion = c; score = clamp_score s.score; reason = trim_space s.reason } ∷ rest

unfoldable pub clean_breakdown : List RawScore → List CriterionScore
unfolding clean_breakdown_from
clean_breakdown ss = clean_breakdown_from [] ss

abbrev pub misses_must : Requirement → Bool
misses_must r = text_eq r.importance requirement_must && text_eq r.met requirement_not_met

-- The last loop of decodeResponse, which stops at the first requirement that it looks for.
unfoldable pub cap_overall : List Requirement → ℕ → ℕ
cap_overall [] overall = overall
cap_overall (r ∷ rs) overall =
    if misses_must r then min overall must_have_cap else cap_overall rs overall

-- decodeResponse, after the JSON decoder
unfoldable pub clean_response : RawResponse → Response
clean_response r = record {
  requirements = clean_requirements r.requirements;
  overall_score = cap_overall (clean_requirements r.requirements) (clamp_score r.overall_score);
  breakdown = clean_breakdown r.breakdown;
  strengths = clean_list r.strengths;
  missing_skills = clean_list r.missing_skills;
  summary = trim_space r.summary;
}

-- What encoding/json gives: an error, the value null, or an object.
pub data Decoded : Type 0 where
  malformed : Decoded
  null : Decoded
  object : RawResponse → Decoded

-- decodeResponse; `none` is its error
unfoldable pub decode_response : Decoded → Option Response
decode_response malformed = none
decode_response null = none
decode_response (object r) = some (clean_response r)

abbrev none_if_empty : List Requirement → Option (List Requirement)
none_if_empty [] = none
none_if_empty (r ∷ rs) = some (r ∷ rs)

-- DecodeRequirements; `none` is nil. A value null leaves the struct empty.
unfoldable pub decode_requirements : Decoded → Option (List Requirement)
decode_requirements malformed = none
decode_requirements null = none
decode_requirements (object r) = none_if_empty (clean_requirements r.requirements)
