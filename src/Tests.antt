-- ===== src/Tests.antt =====
-- Tests of the definitions, and each theorem at a concrete input.
mod Samples
mod Pipeline
mod Embed
mod Evaluation
mod Matcher
mod RateLimit
mod Limiter
mod Searches
mod Postings
mod SavedSearches
mod ApiKeys
mod Users
mod Results
mod Account
mod Auth
mod Jobs
mod Cvs
