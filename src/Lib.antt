-- ===== src/Lib.antt =====
-- The runtime core of datasluice, a library that reads and changes open-data catalogs (CKAN,
-- udata, Socrata): what it does to stay within a time budget, to retry, to protect a portal that
-- fails, to change nothing without confirmation, to run a plan of many changes, to follow
-- redirects safely, to cache what it fetched, to store how far a synchronisation has come, and to
-- learn what a portal can do.
--
-- A mutation goes through `MutationEnforcer.execute`, which checks its policy, opens a deadline,
-- and sends it by a `RetryLoop`; each retry asks `RetryDecision.for_response`.
-- `BulkExecutor.stream` runs a plan of such mutations on a pool of workers, under a budget and a
-- cancellation, and hands over a checkpoint behind every item; the receipts and checkpoints have
-- JSON envelopes. A transport asks `BreakerRegistry` before it sends, and
-- `_next_redirect_request` what may go on at a redirect. The data plane follows redirects by
-- `follow_redirects` and keeps payloads in `ContentCache`; a synchronisation keeps its state in
-- `FileStateStore`. Before a call a client asks `EffectiveCapabilityCache` what the deployment
-- can do, and its guard refuses the rest. Readers of data get their bytes from
-- `apply_compression`.
--
-- Files and sources (paths under src/datasluice of the repository):
--   Base            shared notation: tests, integers, lists, Python dicts and sets, exceptions with state
--   Errors          errors/catalog.py: the exceptions, `map_status` for `map_catalog_error`
--   Json            JSON values, as envelopes and metadata hold them
--   Safety          domain/catalog/safety.py: the policies, `make_…` for each `__post_init__`
--   Catalog         domain/catalog/ids.py, operations.py, receipts.py: identifiers and receipts
--   Resilience      domain/catalog/resilience.py and runtime/resilience.py:
--     Budget        `TimeBudget`, `DeadlineMonitor`
--     Decision      `RetryDecision.for_response`
--     Retry         `RetryLoop.run`; its state `Run` counts sends and lists sleeps
--     Breaker       `CircuitState`, `BreakerRegistry`; Phases and Laws relate it to one automaton
--   Redirect        io/_redirects.py: `follow_redirects`; its state `Trip` lists the URLs
--   Mutation        runtime/mutation.py: `MutationEnforcer`
--   Bulk            runtime/bulk.py and the bulk records of domain/catalog/receipts.py:
--     Item          `_execute_sync_item` and what it calls
--     Progress      `_BulkProgress`, and the state `Stream`: the variables of the generator, what was
--                   yielded, dispatched and saved, and the exception that ended it
--     Executor      the stop state, and `BulkExecutor.stream` with the methods that it calls
--     Summary       `BulkSummary`, `_summary`
--   Receipts        `to_dict` and `from_dict` of identifiers, receipts, plans and checkpoints
--   Cache           io/content_cache.py: `ContentCache`
--   StateStore      sync/state_store.py: `FileStateStore`, with `SyncState` of domain/sync_state.py
--   Capability      runtime/capability.py and domain/catalog/profiles.py: `EffectiveCapabilityCache`:
--     Profiles, Evidence, Guard   profiles, what counts as evidence, and the guard on a profile
--     Entries       the entries with their time stamps
--     Flights, Threads   the probes that calls share; each action is what a call does under the lock
--     Consistency, Unmoved, Doomed, Provenance   what holds of these in every reachable world
--     Sharing, Invalidation, Bounds, Scopes, Recorded, Derived   what callers can rely on
--   Compression     data/compression.py:
--     Peekable, Calls   `PeekableReader`, and any sequence of calls on it
--     Bounded, Limits   `_ErrorTranslatingReader`, and any sequence of reads of it
--     Select, Choices   `_detect_format`, `_zip_largest_member`, `apply_compression`
--   Transport       runtime/transport/base.py and _shared.py: requests and the redirect hop
--     Urllib, Hops  urllib_transport.py: `UrllibCatalogTransport.send`; its state `Trip` lists the requests
-- A module Tests holds runs on concrete inputs.
--
-- Code outside the repository is a parameter: a clock, a sleep, `send`, `wait`, the filesystem,
-- SQLite, hashes, `urlsplit` and `urljoin`. What is relied on is a named record of hypotheses:
-- `WaitsFor` for `wait`, `HostLaws` and `StateLaws` for the filesystem and the hashes,
-- `SourceLaws` for a file object, `InnerLaws` for a decompressor. The world that they act on is a
-- type of its own, and is threaded through every call. The code of the repository that exchanges
-- one request with a server, redacts text, checks a URL, or matches a name against a pattern is a
-- parameter too, and so are the tests of watermarks, timestamps and artifacts.
--
-- Times are whole milliseconds. The retry loop recurses on the attempts that are left; the
-- redirect loops on the rounds of their `range`; `_dispatch_available` on the items pending; the
-- loop of `stream` on the items of the plan and one more, which is shown to be enough; the loops
-- of a `PeekableReader` on the bytes that are still asked for, of which each round reads one at
-- least.
--
-- Not modelled: the asynchronous twins of the retry loop, the bulk executor and the flights of
-- the capability cache, which repeat the synchronous code with awaits; a consumer that
-- closes a bulk stream early (`drain_sync` is what is done then, and no run of `stream` calls it);
-- locks themselves; messages of exceptions; the rest of the repository, which is connectors, the exchange of a transport
-- with a server, readers, credentials, the synchronisation that uses the state store, and front
-- ends.
pub mod Base
pub mod Errors
pub mod Json
pub mod Safety
pub mod Catalog
pub mod Resilience
pub mod Redirect
pub mod Mutation
pub mod Bulk
pub mod Cache
pub mod Receipts
pub mod StateStore
pub mod Compression
pub mod Transport
pub mod Capability
