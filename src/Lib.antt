-- ===== src/Lib.antt =====
-- cv-evaluator: a service that searches job portals on a schedule, embeds the postings it finds and
-- evaluates a user's CV against them with a language model.
--
-- The program's parts, and where they are modelled:
--   Models: the rows of the database tables (internal/models). A row is a record, a table a list of
--     rows; a time is a number of nanoseconds, an id the number that its bytes spell, NULL is `none`.
--   Prelude.Table, Prelude.Joins, Prelude.Keyset: the statements of SQL that the queries use, and the
--     rows past a cursor.
--   Pipeline: the background pipeline (internal/pipeline).
--     Config, Backoff: Config, withDefaults, New and backoff of pipeline.go.
--     Failure: the errors of a step and applyFailure.
--     Claim: claimJob and claimResult of store.go; Spec says which row a claim may take and which is
--       next, Choice that the queries take that one.
--     Embed: EmbedOne; Steps is about the portal and the embedder, Row about the row that is
--       written, Retries about repeated passes over one job.
--     Workers: several embed workers on one table as a step relation. A step is a claim, a write, the
--       death of a worker, a new posting or the passing of time.
--     Searches: DueSearches, ClaimRun and MarkRun of sources/sources.go, runSearch and tick; Lease is
--       about the claim of a run, Due about the order of the searches.
--     Postings: runPortal, upsertSearchResult and Upsert of internal/storage/jobs; Attempts is about
--       the search of a portal, Stored, Repeats and Keeps about the rows that are stored.
--     Limiter: the RateLimiter of ratelimit.go; Spacing is about the slots of a portal, Penalty about
--       the portals that fail.
--     Evaluations: saveEvaluation, lockSearchResult, evaluationRow.
--     Evaluate: EvaluateOne and LatestCVSelector; Linked is about the evaluation of a result, Retries
--       about repeated passes over one result.
--   Jobs: postings that are stored and embedded one by one (internal/services/jobs, and the rest of
--     internal/storage/jobs); Once is about processing a posting twice.
--   SavedSearches: what users do with their saved searches (internal/services/jobsearches); Kept and
--     History are about every history of their operations and the scheduler's, Owners about other
--     users' searches, Names about the default name.
--   ApiKeys: personal API keys (internal/services/apikeys); Secrets is about their generation, Access
--     about their use. One fuel of the generator is one buffer of random bytes.
--   Users: accounts, sign-in and passwords (internal/services/users); Tokens has the tokens as they
--     are sent and the profile, Cvs the storage of CVs, Uploads what an upload leaves; Sessions is
--     about a change of the password, Emails about sign-ups, Profiles about changes of a profile.
--   Account: the deletion and the export of an account (internal/services/account). Gone says what is
--     left, Intact is about references between the rows that are left, Late about the pipeline's
--     workers, Apart about the export of another account.
--   Auth: the authentication middleware (internal/servers/middleware) over Users and ApiKeys, as cmd/api
--     wires it. Passed is about the requests that pass, Fresh and Revoked about the tokens that the
--     users service signs, Deleted about requests after the deletion of an account.
--   Results: a user's search results, listed, triaged and counted (internal/services/results). Params,
--     Rows and Lists are List; Details is Get, Changes UpdateStatus and ReEvaluate, Summaries Summary.
--     Pages is about a walk through all pages, Keys about the rows of a page, Valid about the
--     parameters, Breakdown about the order of the scores, Updates, Triage and Again about the changes,
--     Totals about the counts.
--   Matcher: how the language model's answer is cleaned (internal/services/matcher,
--     internal/entities/matches.go).
--   Prompts: the tags around untrusted text (internal/llm/prompts/tags.go).
--   RateLimit: the sliding-window limiter of the HTTP servers (internal/servers/ratelimit); Spec is a
--     log of every event that was allowed.
--   Tests: the definitions and the theorems at concrete inputs.
--
-- A claim and a write are one atomic statement each, so that a call of EmbedOne or EvaluateOne is: the
-- claim, any change that others make to the tables (a function of the environment), and the write.
-- SHA-256, bcrypt, the packages jwt and ulid and the source of random bytes, the portals, the
-- embedder, the language model, the CV selector, the clock, the locks that other transactions hold
-- and the failures of the pipeline's database are parameters. Only the generator of API keys runs
-- on fuel, since nothing bounds how many of its random bytes it rejects; all other loops run over
-- lists, or a known number of times.
--
-- Durations of the backoff wrap at 64 bits, as Go's do. Texts are lists of code points. Not
-- modelled: the JSON decoder (its result is a value of Decoded or Value), the numbers and ids
-- inside error texts, the letter case of the irregular letters of Latin Extended-B and of scripts
-- but Latin, Greek, Cyrillic and Armenian, the ids and dates of score rows, the failures of the
-- services' database, log lines and telemetry. Nor are the HTTP handlers (they parse and render
-- JSON), the scrapers and the extraction of text (parsers of foreign pages and documents), the
-- clients of the language models, the cover letters (a prompt, and regular expressions over the
-- answer), the operations on portal suggestions (the URL parser), the start-up of the commands, and
-- the web client.
pub mod Prelude
pub mod Models
pub mod Matcher
pub mod Prompts
pub mod RateLimit
pub mod Pipeline
pub mod SavedSearches
pub mod ApiKeys
pub mod Users
pub mod Account
pub mod Auth
pub mod Jobs
pub mod Results
pub mod Tests
