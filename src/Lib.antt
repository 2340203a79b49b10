-- ===== src/Lib.antt =====
-- pvlog: a server for photovoltaic telemetry. Observations come in through an HTTP interface, are
-- checked and normalised by the application crate, kept as hot rows by the storage crate, and later
-- compacted into archived segments, from which reads are merged again with the hot rows and the
-- corrections (overlays). Rollups sum the samples up by windows; a query is planned over rollups or
-- observations, and its answer checked. Rules raise alerts, and webhooks deliver events. Every
-- request is authorised by the role-based access control of the domain crate.
--
-- Parts of the program and the files that model them:
--
-- src/crates/storage/src/segment_codec.rs, the archived segment: Storage/Segment. `column` and
-- `expand` are Storage/Segment/Column, `encode_segment_v1` Storage/Segment/Encode,
-- `decode_segment_v1` Storage/Segment/Decode. An i64 is an integer whose sums and differences are
-- `checked_add` and `checked_sub` of Common/Int, and wraps round where the source does not check.
-- prost, zstd, blake3 and uuid are a record of operations, `Libraries`, with laws `LibraryLaws`.
--
-- src/crates/storage/src/merged_reader.rs, the merged read: Storage/Merge. The map of selected
-- candidates is a sorted list of pairs, the final sort an insertion sort by the same key.
--
-- src/crates/storage/src/compaction.rs, the compaction of hot rows into a segment:
-- Storage/Compaction. It calls the segment codec. The repository trait is the record
-- `CompactionRepository` of operations on a world of any type, each of which may fail and leaves a
-- world behind (Common/Stateful); `CompactionLaws` in Storage/Compaction/Laws is what the trait
-- promises.
--
-- src/crates/storage/src/overlay_folding.rs, the folding of corrections into a replaced segment:
-- Storage/Folding, in the same way, with `OverlayFoldRepository`, and `FoldLaws` in
-- Storage/Folding/Laws.
--
-- src/crates/domain/src/rbac.rs with the types of identity.rs, the access control: Domain/Rbac.
-- Role resolution recurses through parent links that may form cycles; it is modelled with fuel, one
-- round more than there are roles, which is enough because each nested call visits a role that was
-- not visited before.
--
-- src/crates/application/src/pagination.rs, the signed page cursors: Application/Pagination. A
-- string is the list of its bytes. blake3 and serde_json are the record `CursorLibraries`, with
-- laws `CursorLibraryLaws`.
--
-- src/crates/application/src/ingestion_validation.rs with the types of telemetry.rs and systems.rs
-- in src/crates/domain/src that it reads, the validation of an observation: Application/Validation.
-- The `?` of the source is the bind of `Result`, in the source's order.
--
-- src/crates/storage/src/rollup_builder.rs, the rollups over calendar windows: Storage/Rollups. The
-- indices into the samples are the lists of the samples that are left; `roll_each` in
-- Storage/Rollups/Buckets is the reference, one window at a time.
--
-- src/crates/application/src/query_planner.rs, the physical plan of a read: Application/Planner.
-- The time zone database is a parameter, a set of fields or resolutions is its membership test.
--
-- src/crates/application/src/series_query.rs, the query service: Application/Series, with the
-- service itself in Application/Series/Query. It calls the planner and the repository trait, and
-- checks what the storage answers.
--
-- src/crates/application/src/alert_rules.rs and alert_evaluator.rs with the alert types of
-- src/crates/domain/src/operations.rs: Application/Alerts. Application/Alerts/Machine runs the
-- transitions over histories of evaluations, Application/Alerts/Evaluator is the service over its
-- repository, with `EvaluatorLaws`, and Application/Alerts/Rules the management of the rules.
--
-- src/crates/application/src/webhook_delivery.rs with the delivery types of operations.rs:
-- Application/Webhooks, the service in Application/Webhooks/Service. The sender, the jitter and the
-- instants that the calendar has are parameters, the readings of the clock arguments.
--
-- src/crates/application/src/browser_session.rs: Application/Sessions. Its repository trait is a
-- record of operations, and Application/Sessions/Table is the one over the table of sessions, as
-- the SQLite statements of src/crates/storage/src/management_repository.rs say it
-- (browser_session_repository.rs passes them on).
--
-- Shared helpers stand under Common: tests on numbers, lists, `Result`, integers and i64, sorted
-- maps, stateful calls, white space.
--
-- Loops are structural recursion. Identifiers and timestamps are numbers, a set is a list of which
-- only the members count, or its membership test. The builds of the source wrap on overflow where
-- the source does not check, and so does the model.
--
-- Not modelled: the rest of the ingestion, rate limits, statistics and data quality, the rebuilding
-- of summaries, tokens and passwords, webhook subscriptions, the services for managed resources and
-- the checked domain values, each of its own; the other SQL repositories, the HTTP handlers, the
-- process start, the uploader and the worker, which are input and output around these parts; the
-- yield model and the forecasts, which are floating point; the web interface, which is another
-- language.
pub mod Common
pub mod Application
pub mod Domain
pub mod Storage
