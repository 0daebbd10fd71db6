-- ===== src/Lib.antt =====
-- Travel-Assistant: a model of the Python backend under travel-agent-python/app, and what holds of it.
--
-- The backend plans trips with language models. Around the generation it keeps shared state: locks,
-- counters, sessions and caches, in Redis while it answers and in tables of the process otherwise. The
-- trips are rows of a database that generations, members and a day's optimiser change, with a version
-- before each edit. This development models the state layer, the gates that stand on it, and these
-- edits: ItineraryCommand asks CollaborationService who may write, takes its snapshots from
-- ItineraryVersion, and orders a day by the names that ScheduleOptimizer's plan would give it.
--
-- - Base: names of the libraries passed on, Boolean tests on the native numbers, lists.
-- - Dict (Evict, Distinct, Bounded): Python's dict as an association list, and the eviction of the
--   entries that expire first, which `_bound_windows`, `_local_put` and `ExternalClient._store` share.
-- - RedisClient: common/redis_client.py, the breaker of the shared client. `try_redis` is the shape
--   `try: _redis()… except Exception: note_failure(exc)` that its callers have.
-- - StateAndSessions: services/state_and_sessions.py. Windows (`sliding_hit`, `sliding_count`,
--   `reset_counter`), Marks (`try_mark`, `is_marked`, `unmark`), Sessions (`register_session`,
--   `revoke_current`, `revoke_all`).
-- - TokenRevocation: common/token_revocation.py (`revoke`, `is_revoked`).
-- - CacheStore: common/cache_store.py (`get_json`, `set_json`, `reserve`, `delete`).
-- - QuotaService: services/quota_service.py, the budgets per user over the windows.
-- - GenerationGate: services/generation_gate.py, the locks of a day and of a resume, `verify_action`
--   and `request_fingerprint`.
-- - RunLimits: agent/runtime/run_limits.py, the caps and the deadline of one run.
-- - ExternalClient: common/external_client.py. Slots (`_acquire_slot`, the instants of `call`), Outcomes
--   (the cache), Failures (the breaker).
-- - DayPersistence: services/day_persistence.py and services/day_delivery_gate.py. Writes (`persist`,
--   `mark_running`, `mark_failed`, `complete_trip` and the others), Items (what a day then shows), Gate
--   (who may write it).
-- - TaskPool: common/task_pool.py and the registry of active generations of
--   services/itinerary_generation.py.
-- - GenerationRecovery: services/generation_recovery.py, `recover_one` from the probe of the registry to
--   the submission.
-- - CollaborationService: services/collaboration_service.py and the checks `require_main`,
--   `require_writable_main` and `require_owned_main` of services/itinerary_query.py.
-- - EventHub: common/event_hub.py, the subscriptions of a trip; Laws (what one operation keeps), Runs
--   (any sequence of events).
-- - BudgetEngine: services/budget_engine.py, the four rows of a trip's budget, in hundredths.
-- - Count: how often a number stands in a list.
-- - DbPool: common/db_pool.py, the pool of database connections; Steps (callers whose steps interleave),
--   Alone (one call of `acquire` from its start to its end).
-- - ItineraryVersion: services/itinerary_version.py. Numbering (writers that race for the next number),
--   Retry (`create_snapshot` under other writers), Diff (`diff`), Restore (`restore`).
-- - ItineraryCommand: services/itinerary_command.py. Edits (`add_item`, `update_item`, `delete_item`),
--   Order (`reorder_items`, `optimize_day`), Snapshots and Recorded (the two snapshots around an edit),
--   Runs (any of the five edits), Cascade (`delete_itinerary`, `delete_cascade`).
-- - ScheduleOptimizer: agent/generation/output/schedule_optimizer.py. Feasible (the day that the loop over
--   an order builds), Search (the orders and the choice), Best (what the search finds).
--
-- Instants and durations are whole milliseconds on ℕ; a call takes the readings of its clocks as a
-- `Moment`. A server's reply is an argument, `none` where the call raises: what Redis holds is not
-- modelled, so a theorem that speaks of the table of the process names the replies it needs. JSON,
-- SHA-256 and the settings are parameters. Locks of threads are left out: each operation of the model
-- is one pass under the source's lock, and the interleavings are the sequences of calls.
-- A transaction is one step: the edits of a trip run one after the other, but for the races that
-- ItineraryVersion and DbPool state as steps in any order. `DbPool.acquire` takes a bound on its passes;
-- one more than the idle connections is enough. The permutations of `orders_of` recurse on the length.
-- `str` runs on fuel `n + 1` for the number `n`, which is more than its digits.
--
-- Not modelled: the HTTP routers, the calls of language models and of outside services, the prompts and
-- the heuristics on texts, the database's mappings, the export, and the front end.
pub mod Base
pub mod Dict
pub mod RedisClient
pub mod StateAndSessions
pub mod TokenRevocation
pub mod CacheStore
pub mod QuotaService
pub mod GenerationGate
pub mod RunLimits
pub mod ExternalClient
pub mod DayPersistence
pub mod TaskPool
pub mod GenerationRecovery
pub mod CollaborationService
pub mod EventHub
pub mod BudgetEngine
pub mod Count
pub mod DbPool
pub mod ItineraryVersion
pub mod ItineraryCommand
pub mod ScheduleOptimizer
