-- ===== src/Lib.antt =====
-- The agent deployment platform: a catalog of agents and skills is ingested from a source,
-- composed with a system file into a system, planned against what a target holds, approved by a
-- user, applied under a fence, journaled, and audited. This library models the parts that decide
-- these steps.
--
-- Systems is the path from a system file to a plan: crates/core/src/application/compose/mod.rs
-- (the functions compose, compose_v1, compose_v2 and apply_override, in Systems/Composing) over
-- the types of crates/core/src/domain/system/mod.rs, crates/core/src/domain/agent/mod.rs,
-- crates/core/src/domain/skill/mod.rs and crates/core/src/domain/version/mod.rs (Systems/Catalog),
-- and plan_for of crates/core/src/application/plan/mod.rs (Systems/Planning). The three loops over
-- references are one function, resolve_all. Systems/Resolver is the choice of a version in a
-- range, crates/core/src/domain/version/resolver.rs.
--
-- Deploys is the table of requested deploys,
-- crates/core/src/infrastructure/repository/pending_deploys_repository.rs: request captures what
-- the plan was made from, approve and reject decide, and mark_applied applies an approved row if
-- nothing that was captured has changed, and then moves the target's fence by a compare-and-swap.
-- Deploys/Database has the tables with the constraints of the migrations (unique active deploy of
-- a target, foreign keys, NOT NULL), with foreign keys switched on; Deploys/Interleaving splits
-- the calls into their statements.
--
-- Journal is the recovery journal, crates/core/src/application/journal/mod.rs: Journal/Service has
-- each operation of JournalService, Journal/Machine the transitions that the service enforces.
--
-- Audit is the append-only audit log,
-- crates/core/src/infrastructure/repository/audit_log_repository.rs: Audit/Recording appends rows
-- to a chain of digests, Audit/Verifying walks the chain, and Audit/Paging reads pages of it.
--
-- Urls is the policy on source URLs, crates/core/src/infrastructure/url_policy.rs: Urls/Policy has
-- check and the functions that find the host in a URL, Urls/Addresses the guard against private
-- addresses.
--
-- Releases is crates/core/src/application/policy/mod.rs (the gates of a release policy, in
-- Releases/Gates) and crates/core/src/application/reconcile/mod.rs (classify, in Releases/Drift).
--
-- Accounts is the users and their sessions: Accounts/Users and Accounts/Sessions are
-- crates/core/src/infrastructure/repository/users_repository.rs and sessions_repository.rs beside
-- it, Accounts/Pending is oidc_pending_repository.rs there, Accounts/Cookies is
-- crates/server/src/session_cookie.rs, and the other files say what calls in
-- any order do to a session (Lifetimes, Sliding, Staying) and to a user (Disabling).
--
-- Access is the layers that a request passes, crates/server/src/auth.rs: Access/Tokens and
-- Access/Authentication find the user, Access/Csrf has require_csrf_for_mutations and, as authed,
-- the order in which router of crates/server/src/lib.rs puts the layers around a handler, which is
-- an argument. A request is handled at one reading of the clock.
--
-- Idempotency is the `Idempotency-Key` header: Idempotency/Keys is
-- crates/core/src/infrastructure/repository/idempotency_repository.rs, and Idempotency/Middleware
-- is crates/server/src/idempotency.rs, as the steps of a request between its calls of the
-- database, which a schedule interleaves. Idempotency/Ordering puts the middleware around Access,
-- as lib.rs does.
--
-- Writes is crates/core/src/application/deploy/mod.rs, how a system gets into a target directory:
-- Writes/Placing is write_one with the backup of what it replaces, Writes/Applying the loop of
-- DeploymentService::apply, and Writes/Deploying the whole call (deploy_system) with the journal
-- around it. Writes/Disk is the file system: files, directories and the objects of
-- crates/core/src/infrastructure/content_store/mod.rs under their hash; what the
-- operating system refuses, by operation and path and for each write anew, and what a refused
-- write leaves of a file, are arguments, as is whether the database takes a row. Writes/Delivering
-- has the specification of the loop, Writes/Succeeding that of the whole call.
--
-- Base has what they share: tests, lists, tables, keys, texts, and the errors of
-- crates/core/src/error.rs.
--
-- How the code is read. A table is the list of its rows in the order of their ids; a statement is
-- a function of the tables, and a call takes and returns them. Readings of a clock are arguments,
-- in milliseconds (that of prepare in nanoseconds), as are generated ids; an i64 or a u64 is a natural number, and overflow of a
-- counter of rows is not modelled. A column with the text of an enum holds the enum that its parse
-- function reads from the text, except in Audit, where it is the text. The free text of an error's
-- reason, of a plan operation's reason and of log lines is not modelled; the fields by which a
-- caller tells errors apart are. In Audit a text is the list of its UTF-8 bytes. Third-party code
-- is a parameter: serde_json in the journal, sha2 with hex in the deploys and the audit log, hmac
-- in the audit log. So are the YAML parser in Releases, the versions and ranges of semver in
-- Systems/Resolver, and sha2, chrono, the UTF-8 of texts and JSON objects in Access. So is, in
-- Urls, str::to_lowercase, which is a table of Unicode, and the parser of
-- IP addresses. A hash map or set is the list of its entries in the order of iteration.
--
-- Bounds. All loops are structural; the only fuel is that of the decimal digits of a number, 20,
-- which is enough for a u64. Limits of pages are clamped to 1..500 as in the source, and the size
-- of an effect is checked against the maximum of the journal. The polling of a request in flight
-- takes the list of its rounds, and is shown to end.
--
-- Not modelled: parsing of YAML and Markdown and walks of the file system (third-party code and
-- I/O), the Git fetcher, the patterns of allowed sources, the OIDC login and the vault, the HTTP
-- handlers, metrics, the command line, the desktop application and the Hermes adapter.
pub mod Base
pub mod Accounts
pub mod Access
pub mod Idempotency
pub mod Journal
pub mod Deploys
pub mod Audit
pub mod Systems
pub mod Urls
pub mod Releases
pub mod Writes
