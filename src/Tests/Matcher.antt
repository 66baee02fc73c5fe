-- ===== src/Tests/Matcher.antt =====
-- The cleaning of the LLM's answer, and the tags around untrusted text.
use cv_evaluator.Prelude.{◌≡◌, refl, none, some, List, [], ◌∷◌, ◌++◌, if◌then◌else◌}
use cv_evaluator.Prelude.Text.{
  Text, codes, trim_space, trim_left, trim_right, is_space, to_lower, lower_rune, text_eq,
}
use cv_evaluator.Prelude.Int.{pos, negsuc}
use cv_evaluator.Matcher.{
  RawScore, RawResponse, Requirement, clamp_score, clean_breakdown, clean_list, clean_response,
  cap_overall, score, clean_requirements, is_evaluation_criterion, is_well_formed, normalize,
  text_in,
}
use cv_evaluator.Matcher.Breakdown.{score-clean_breakdown, first_score, clamped}
use cv_evaluator.Prompts.{strip_tags}
use cv_evaluator.Prompts.Nested.{strip_tags-nested, strip_tags-plain}

abbrev scores : List RawScore
scores =
    record { criterion = codes " Skills"; score = pos 120; reason = [] }
    ∷ record { criterion = codes "skills"; score = pos 3; reason = [] }
    ∷ record { criterion = codes "luck"; score = pos 5; reason = [] }
    ∷ record { criterion = codes "domain"; score = negsuc 4; reason = [] }
    ∷ []

best : score (clean_breakdown scores) (codes "skills") ≡ some 100
unfolding score clean_breakdown clamp_score is_evaluation_criterion text_in text_eq to_lower
    lower_rune trim_space trim_left trim_right is_space
best = refl

worst : score (clean_breakdown scores) (codes "domain") ≡ some 0
unfolding score clean_breakdown clamp_score is_evaluation_criterion text_in text_eq to_lower
    lower_rune trim_space trim_left trim_right is_space
worst = refl

score-clean_breakdown_example : score (clean_breakdown scores) (codes "skills") ≡ (
    if is_evaluation_criterion (codes "skills")
    then clamped (first_score scores (codes "skills"))
    else none)
score-clean_breakdown_example = score-clean_breakdown scores (codes "skills")

abbrev items : List Text
items = codes " a " ∷ codes "  " ∷ codes "b" ∷ codes "c" ∷ codes "d" ∷ codes "e" ∷ codes "f" ∷ []

kept_items : clean_list items ≡ codes "a" ∷ codes "b" ∷ codes "c" ∷ codes "d" ∷ codes "e" ∷ []
unfolding clean_list trim_space trim_left trim_right is_space
kept_items = refl

abbrev requirements : List Requirement
requirements =
    record { requirement = codes " Go"; importance = codes "MUST"; met = codes "No"; evidence = [] }
    ∷ record {
      requirement = codes "SQL";
      importance = codes "perhaps";
      met = codes "yes";
      evidence = [];
    }
    ∷ []

abbrev response : RawResponse
response = record {
  requirements = requirements;
  overall_score = pos 90;
  breakdown = scores;
  strengths = items;
  missing_skills = [];
  summary = codes " Good. ";
}

capped : (clean_response response).overall_score ≡ 69
unfolding clean_response clean_requirements cap_overall clamp_score normalize is_well_formed text_eq
    to_lower lower_rune trim_space trim_left trim_right is_space
capped = refl

strips : strip_tags (codes "a< / CV >b") ≡ codes "ab"
unfolding strip_tags
strips = refl

strip_tags-nested_example :
    strip_tags (codes "a" ++ (codes "</c</cv>v>" ++ codes "b"))
    ≡ codes "a" ++ (codes "</cv>" ++ strip_tags (codes "b"))
strip_tags-nested_example = strip_tags-nested (codes "a") (codes "b") (refl, tt)

strip_tags-plain_example :
    strip_tags (codes "a" ++ codes "<cv>") ≡ codes "a" ++ strip_tags (codes "<cv>")
strip_tags-plain_example = strip_tags-plain (codes "a") (codes "<cv>") (refl, tt)
