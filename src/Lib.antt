-- ===== src/Lib.antt =====
-- LidRadar watches a company's conversations with its customers and warns when a deal is about to be
-- lost: nobody has answered, a booking is not confirmed, a customer is silent after a price. This
-- library models parts of its backend (backend/internal), written in Go, and proves what makes them
-- correct.
--
-- The parts and how they interact. A conversation belongs to an opportunity, whose stage moves by
-- rules (opportunity). The policies of risk read the state of a conversation and the clock of a
-- company's business hours and decide whether a risk is found, when it will be, or whether an open one
-- is resolved; an evaluator stores or closes the risk, and a planner asks for the checks that come
-- later (risk). Checks wait until they are due, become jobs and are run by workers that lease them
-- (jobs). What other parts must hear of is an event of the outbox, which dispatchers lease and hand to
-- handlers (events). A recipient's preference decides whether a risk is told at once, in a digest of a
-- later slot or after the quiet hours (notification).
--
-- The files and the code they model:
-- - Prelude, Prelude/*: library names passed on, Boolean tests, lists, results.
-- - Text: strings.TrimSpace, codes, lengths in bytes, the texts of formats.
-- - Time, Time/Int: time.Time as the nanoseconds since its zero value, time.Duration as an integer,
--   a *time.Location as a record of what the code asks of one. Float: the float64 of confidences.
-- - Opportunity/Stage, Opportunity/Aggregate: backend/internal/opportunity/domain/opportunity.go.
-- - Opportunity/Repository: backend/internal/opportunity/infrastructure/postgres.go, its tables and
--   statements in Repository/Statements. Repository/Rows, Repository/Laws and Repository/Transition hold
--   the proofs, Stage/Laws those on stages.
-- - Risk/BusinessTime: backend/internal/risk/domain/business_time.go; its proofs by what they prove in
--   Day, Schedule, RoundTrip, Due, Weeks and Total.
-- - Risk/Aggregate: backend/internal/risk/domain/risk.go and the marks of feedback.go; its types are in
--   Aggregate/Model, its proofs in Aggregate/Lifecycle.
-- - Risk/Policy: the state and the decision of risk.go, and a file for each rule: no_response.go,
--   booking_not_confirmed.go, customer_silent_after_price.go, follow_up_candidate.go,
--   promise_not_fulfilled.go and unfinished_agreement.go, with promised_time.go in PromisedTime and
--   its words in PromisedTime/Lexicon, and agreement_selection.go in Agreements; the Laws of a rule,
--   Earliest and Weekday hold proofs.
-- - Risk/Store: backend/internal/risk/infrastructure/postgres_repository.go. Rows, Columns, Laws,
--   Stored, Active and Accepted hold its proofs.
-- - Risk/Evaluation: backend/internal/risk/application/evaluate.go, with the interfaces of the policy and
--   the repository; Contract states what a repository keeps, Effect what the evaluator promises of any
--   such repository, and Postgres that the store is one.
-- - Risk/Planner with its children Inputs, Runs and Events:
--   backend/internal/risk/application/background.go; Kept, Remembered, Refreshed, Moved and Delivered
--   hold its proofs.
-- - Jobs/Job, Jobs/Check: backend/internal/jobs/domain/job.go. Jobs/Store, Jobs/Store/Checks:
--   backend/internal/jobs/infrastructure/postgres.go. Jobs/Worker: worker.go and scheduler.go of
--   backend/internal/jobs/application, with proofs in Worker/Written and Worker/Laws. Rows, Ids, Laws, History,
--   Enqueue, Scheduled and Moved of Jobs/Store hold the proofs on the store.
-- - Risk/Feedback: backend/internal/risk/domain/feedback.go, but for its rates. Corrective and Revenue:
--   backend/internal/corrective/domain/corrective.go and backend/internal/revenue/domain/revenue.go.
-- - Tables, Tables/Apart: lists of rows and the conditions, orders, updates and unique indexes that stores
--   apply to them.
-- - Events/Event, Events/Store and Events/Dispatcher: domain/event.go, infrastructure/postgres.go and
--   application/dispatcher.go of backend/internal/events. Rows, Claims, Valid and Append of Events/Store,
--   and Attempts and Drain of Events/Dispatcher hold the proofs.
-- - Notification/Policy, Fact and Digest: policy.go, notification.go and digest.go of
--   backend/internal/notification/domain; Policy/Preferences has the preferences of policy.go,
--   Fact/Names the channels, kinds and keys of notification.go. Policy/Quiet, Fact/Keys, Digest/Lines,
--   Digest/Size and Digest/Queue hold their proofs; Text/Sizes the lemmas on the lengths of texts.
-- - Tests: the theorems on concrete data.
--
-- How state is modelled. A table of PostgreSQL is a list of rows; a statement or a transaction is a
-- function from tables to tables or an error, and an error keeps the tables, as the rollback does.
-- Transactions run one after the other, which row locks bring about; the rows that another transaction
-- holds while SKIP LOCKED passes over them are an argument. An interleaving of workers is a sequence
-- of operations. What other transactions commit between the statements of UpsertActive is an argument
-- too, a sequence of statements of the same store. Foreign keys are taken to hold where they are not
-- an argument, and failures of the connection are left out.
--
-- Bounds and fuel. The two loops of the business clock have at most 3660 rounds in the code, and these
-- rounds are the recursion of the model; no fuel is added. Numbers are not bounded: moments and lengths
-- of time stay below 2^63 ns in the code for any date in use. decimal prints at most twenty digits, all
-- that a 64-bit integer has.
--
-- Parameters. The functions of packages regexp, strings and strconv that read promises (the record
-- Texts); time.LoadLocation and the calendar of package time; time.Format; strings.ToUpper; the values
-- of package decimal; the verb %.3f; whether a text is a JSON object; the equality of two JSON documents
-- in PostgreSQL; the JSON texts that encoding/json makes of an event's data and a job's payload; what
-- NUMERIC(4,3) keeps of a confidence; whether the rows exist that the foreign keys of a risk name.
--
-- Zones. time.Date promises the clock time it was asked for only where no change of the clocks skips or
-- repeats it, so what a zone must have is a hypothesis: IsCalendar, that every day has its midnight once;
-- ShowsOnce, that every day has one clock time once; KeepsDay, that a clock time asked for is never
-- moved to another day. Zones whose summer time does not begin or end at midnight have the first and the
-- third, and the second but for the hour of the change. Fits says of a schedule that no period runs past
-- the next midnight, which only one up to the end of a day of less than 24 hours does.
--
-- Not modelled: the plain reads of a repository and the queries that build a conversation state, which
-- are SQL; the rates of feedback, which divide float64; the loops of the services that sleep and log;
-- the services of opportunities, and the stores and services of corrective facts, revenue,
-- notifications, conversations, AI analysis, identity, tenants, catalogues, analytics, administration and
-- connectors, which are parts of their own around HTTP, mail and third-party services; and
-- configuration, which reads the environment.
pub mod Prelude
pub mod Tables
pub mod Text
pub mod Time
pub mod Float
pub mod Opportunity
pub mod Risk
pub mod Jobs
pub mod Events
pub mod Notification
pub mod Corrective
pub mod Revenue
pub mod Tests
