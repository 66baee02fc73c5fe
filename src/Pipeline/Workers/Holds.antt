-- ===== src/Pipeline/Workers/Holds.antt =====
-- Lists of holds without one of their members.
use cv_evaluator.Prelude.{◌≢◌, refl, sym, List, [], ◌∷◌, ◌++◌, In, All, inl, inr}
use cv_evaluator.Pipeline.Workers.{Hold, around, Apart}

pub In-around :
    (before after : List Hold) (h k : Hold) → In k (before ++ after) → In k (around before h after)
In-around [] after h k i = inr i
In-around (b ∷ before) after h k (inl e) = inl e
In-around (b ∷ before) after h k (inr i) = inr (In-around before after h k i)

pub around_self : (before after : List Hold) (h : Hold) → In h (around before h after)
around_self [] after h = inl refl
around_self (b ∷ before) after h = inr (around_self before after h)

All-drop :
    (P : Hold → Type 0) (before after : List Hold) (h : Hold)
    → All P (around before h after)
    → All P (before ++ after) × P h
All-drop P [] after h a = (a.1, a.0)
All-drop P (b ∷ before) after h a =
    let (rest, here) = All-drop P before after h a.1 in ((a.0, rest), here)

-- Taking one hold out leaves the others apart, from each other and from it.
pub Apart-around :
    (before after : List Hold) (h : Hold)
    → Apart (around before h after)
    → Apart (before ++ after) × All (λ k. h.job.id ≢ k.job.id) (before ++ after)
Apart-around [] after h a = (a.1, a.0)
Apart-around (b ∷ before) after h a =
    let (apart, rest) = Apart-around before after h a.1 in
    let (others, ne) = All-drop (λ k. b.job.id ≢ k.job.id) before after h a.0 in
    ((others, apart), (λ e. ne (sym e), rest))
