-- ===== src/Results.antt =====
-- internal/services/results: a user's search results, listed, triaged and counted.
pub mod Params
pub mod Rows
pub mod Lists
pub mod Keys
pub mod Valid
pub mod Pages
pub mod Details
pub mod Changes
pub mod Breakdown
pub mod Updates
pub mod Triage
pub mod Again
pub mod Summaries
pub mod Totals
