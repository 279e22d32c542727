-- ===== src/Lib.antt =====
-- coin-listener: a backend that watches addresses on EVM chains, Tron and Bitcoin, records what
-- happens on them as events, and notifies people. Its crates stand in backend/crates.
--
-- The scheduler inserts scan jobs for the addresses that are due. Workers claim jobs under a lease,
-- scan the chain from a cursor, record events and finish the job and the audit row of the run. The
-- transaction that records an event also queues it in the notification outbox; the notifier claims
-- outbox rows in rounds, matches the tenant's rules, and delivers to their channels.
--
-- Which file models what:
--   Prelude/*            tests into Bool, lists, integers, texts as code points, numerals, JSON
--   Core/Error           AppError and AppResult (core/src/error.rs), with the ? operator as bind
--   Core/Action          async functions that fail and change a state, and what holds after one
--   Core/Clock, Machine  times in microseconds; i64, i32 and u16, with wrap-around and saturation
--   Core/Models          the rows (core/src/models.rs)
--   Storage/Sql          UPDATE, SELECT and INSERT … ON CONFLICT, over a list of rows
--   Storage/ScanJobs     storage/src/scan_jobs.rs; Claim holds CLAIM_DUE_SCAN_JOB_QUERY, Invariant
--                        and Updates what the statements keep, Due and First the claimed job
--   Storage/ScanRuns     storage/src/scan_runs.rs: opening and finishing a run
--   Storage/Outbox       the outbox statements of storage/src/repositories.rs; Events holds
--                        insert_event_and_outbox_if_not_exists, Retried and Retry the
--                        manual retry
--   Storage/Deliveries   external deliveries (storage/src/notifications.rs): the beginning of an
--                        attempt and its sent and failed marks; Attempts and Once their sequences
--   Storage/ProviderHealth  storage/src/provider_health.rs; Circuit and Candidates the breaker
--   Storage/Redaction    sanitize_provider_error
--   Storage/Catalog      the chains, assets and selections that a scan reads
--   Storage/Cursors      SCAN_CURSOR_QUERY and UPSERT_SCAN_CURSOR_QUERY
--   Storage/Addresses    the statements on watched_addresses of the scheduler and the end of a scan
--   Storage/ScanQueue    storage/src/scan_queue.rs: the signal and the wait; Wake that they meet
--   Storage/Imports      storage/src/address_imports.rs: the checks and the plan of an import; Tasks
--                        and Outcomes the marks of its attempts and its cancellation
--   Storage/ScanTables   the tables that a scan writes, its writes as steps
--   Worker/Ranges        bounded_block_ranges (worker/src/lib.rs)
--   Worker/Cursors       evm_transfer_scan_range, confirmed_cursor_range, btc_scan_from_block
--   Worker/Paging        paged_log_index and the limits of pages
--   Worker/Failover      the loop of scan_evm_address, scan_tron_address and scan_btc_address over
--                        the providers of a chain; Course and Fallback what a scan asks
--   Worker/EvmScan       scan_evm_address_with_provider and its parts; Steps, Coverage and NoGap
--                        what a scan of token transfers has recorded
--   Worker/BtcScan       scan_btc_address_with_provider; Pages, Limit and Complete its pages
--   Worker/Outcome       the end of a scan: finish_scan_job_and_run_for_result and its parts;
--                        Finished the rows that it leaves
--   Worker/Queue         every sequence of the queue's statements, as a step relation
--   Scheduler            enqueue_due_addresses (scheduler/src/lib.rs); Rounds, Drain and Table one
--                        transaction, a whole tick, and the queue after it
--   Notifier/Amounts     amount_raw_meets_minimum (notifier/src/lib.rs)
--   Notifier/Rules       notification_rule_matches_event
--   Notifier/Channels    resolve_explicit_rule_channels and the delivery plans
--   Notifier/Batch       process_notification_outbox_batch
--   Chains/Units         wei_to_decimal_string (chain-providers/src/evm.rs) and
--                        raw_to_decimal_string (chain-providers/src/tron.rs)
--   Chains/Evm           normalize_hex, address_to_topic, topic_to_address; Quantities and Logs
--                        hexadecimal numbers, log filters and decode_erc20_transfer_log
--   Chains/Drafts        transfer_event_draft and evm_balance_change_event (the same file)
--   Chains/Btc           chain-providers/src/btc.rs: paths, pages and classify_btc_transaction
--   Tests                runs and instances at concrete inputs
--
-- State is passed explicitly: a table is a list of rows, and a statement is a function of the time
-- NOW(), its bound values and the table. A statement runs as a whole, so that the interleavings of
-- several workers are the sequences of statements; FOR UPDATE SKIP LOCKED then skips nothing. The
-- ids that the database generates are arguments. A Uuid is a number, and a status column is an
-- enumeration of the words that the statements write. Attempt counts, which start at 0, are natural
-- numbers. A statement that the connection fails is not run; the model holds those that ran. The manual
-- retry of an outbox row is three statements with no transaction, and what others do between them is
-- an argument. Of the database's checks on scan_jobs, CHECK (max_attempts > 0) is not in the model:
-- theorems that need it take a positive limit.
--
-- Loops are structural recursion, or recursion on fuel: bounded_block_ranges is given one round for
-- each block of its interval, which is enough since each round leaves fewer, and the printing of a
-- number n is given n + 1 rounds, each of which divides by the base. The loop over the pages of a
-- Bitcoin address is given eleven rounds: the page after the tenth is an error or the end.
--
-- Parameters stand for code outside the repository: the database's floating-point durations, the
-- range of its intervals and times and its JSON concatenation (Storage/Postgres), its collation, the parsers and printers of big integers and ids,
-- the two commands sent to Redis (Storage/ProviderHealth), and the HTTP clients, whose answers are
-- functions of the request: a scan asks a provider each question once (Worker/EvmScan, BtcScan). The
-- processing of one outbox item is a parameter of the round in Notifier/Batch, which is about the
-- rows, and the scan with one provider is one of the loop in Worker/Failover.
--
-- Not modelled: the scan of Tron addresses and the decoding of its transfers, the timers of the
-- scheduler, the loop of the worker around the statements, the HTTP routes and sessions, the
-- frontend, the JSON of the chain clients' answers, Telegram and webhook requests, custody
-- accounts, the claims and the completion of import tasks, and the reporting queries.
pub mod Prelude
pub mod Core
pub mod Worker
pub mod Scheduler
pub mod Storage
pub mod Notifier
pub mod Chains
pub mod Tests
