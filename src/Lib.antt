-- ===== src/Lib.antt =====
-- The core of a network traffic analyzer: detection rules raise alerts, a trusted list keeps alerts
-- from being raised, alerts are notified and pruned, enrichment keeps within quotas, and a login
-- and a gate protect the API. The code is Go, under backend/internal.
--
-- The parts. An engine (rules/rules.go) holds built-in and user-defined rules, overrides of the
-- built-in ones and each rule's run state. `Tick` runs the rules that are due: a run evaluates the
-- rule's detector, drops exempt and trusted findings, upserts an alert for each of the others and
-- hands those that are new or due again to the dispatcher (notify/notify.go), which filters, queues
-- and delivers them and stamps the alerts. The alerts table (db/alerts.go) holds one live alert for
-- a key. The listener (suricata/suricata.go) turns messages of the sensor into stored events, names
-- and findings for the engine. Enrolled agents report the programs behind connections
-- (api/agents.go). The API's requests pass the gate of auth/auth.go, on the tables of db/auth.go.
-- The scheduler (scheduler/scheduler.go) looks addresses and files up within the providers' quotas.
--
-- The files. `Prelude` has what all share: lists with the tests of SQL statements, texts with the
-- functions of Go's strings package that the code uses, results that are values or errors, and
-- integers. `Values` is `params` of rules/rules.go.
-- `Alerts` is db/alerts.go, one function for a statement on the list of the rows, in which ids come
-- from a sequence; `Rows` has the data. `Unique`, `Statements`, `Severity` and `Lifecycle` are
-- about them.
-- `Exclusions` is db/exclusions.go: `NormalizeExclusion`, `NewExclusionSet`, `MatchIP` and `Match`;
-- `Regexp` builds the regular expression of a name pattern and runs it, as far as Go's package
-- regexp is needed for these, and `Glob` is about that.
-- `Rules` is the package rules: `Types` its data, `Config` overrides (`parseTiming`,
-- `validateConfig`, `effective` and the merging in `UpdateConfig`), `Spec` `toRow` and `Custom` the
-- rest of custom.go, with db/custom_rules.go, `Evaluate` `evaluate` with `resolveExempt`,
-- `applyExclusions` and `attachProcesses`, `Engine` the operations that change the state.
-- `Accepted` is about `Spec`, and the other modules there about the rest.
-- `Explain` is the package explain: `Types` its data, `Facts`, `Program` and `Peers` the signals,
-- `Assess` the assessment, `Network` infra.go, `KnowledgeBase` known.go, `Verify` the commands to
-- verify with, and `Sources`, `Gather` and `Build` the function `Build` over the queries of
-- db/explain.go. `Causes` tells the causes of a level from the facts, and the other modules there
-- are about these.
-- `Suricata` is suricata/suricata.go with the statements of db/ids.go that it calls: `Lines`
-- `ExtractJSON`, `Names` the names that an event teaches, `Handle` the way from a line to the
-- tables and the engine, and `Stats` the counters that are shown; `Run` is a sequence of messages, and in `Handlers` any
-- interleaving of their handlers.
-- `Agents` is db/agents.go, with the statements of db/identity.go and db/agent_retention.go that
-- write, and the agents' requests of api/agents.go: `Rows` the tables, `Store` enrollment and
-- administration, `Reports` what agents report, `Ingest`, `Checks` and `Handlers` the agents'
-- requests, and `Admin` the administrator's. `Steps` puts the operations in any order.
-- `Auth` is db/auth.go (`Rows`, `Accounts`, `Attempts`) and auth/auth.go (`Login`, `Gate`).
-- `Scheduler` is the lanes of scheduler/scheduler.go: `RunVTOnce`, `runFilesVT`, `RunRepOnce` and
-- `RunFilesOnce`.
-- `Notify` is notify/notify.go, `Quiet` its quiet hours.
-- `Retention` is db/alert_retention.go and the settings of db/agent_retention.go.
--
-- State is passed explicitly: an operation takes the state and returns the new one with its answer.
-- A statement on the database may fail; which do is given, and what was written before stays
-- written, but in a transaction, as `EnrollAgent` is one. Times are nanoseconds since the zero time,
-- and one operation takes place at one time.
-- Go's maps are association lists, in whose order the code's loops over maps run here. An operation
-- is one step, run alone; but `Suricata/Handlers` has the handlers of several lines and the page's
-- `Stats` as interleaved accesses of the listener's counters, since not all of these take the lock:
-- what `handle` does to rows and engine is one access there, and a page loads the counters of
-- received and of dropped events in this order and the rest with the table of types. No recursion
-- needs fuel but that of `decimal`, which has one unit more than the number.
--
-- Given, and not modelled: the detectors' queries; the lookups of the providers; parsing of
-- addresses, networks and durations by Go's libraries, changes of case, password hashes and random
-- tokens; the formats of times, the decoding of JSON, the regularity of contacts, which is computed
-- with floats, and the resolver; the server's reading of addresses. Left out are reads that change
-- nothing, the text of messages, HTTP itself, the geo lane and roll-ups, and the programs in other
-- languages.
pub mod Prelude
pub mod Values
pub mod Alerts
pub mod Exclusions
pub mod Explain
pub mod Rules
pub mod Suricata
pub mod Agents
pub mod Auth
pub mod Scheduler
pub mod Notify
pub mod Retention
