-- ===== src/Lib.antt =====
-- A model of the core of Fetech, a gateway that plans and runs the acquisition of web resources.
--
-- A request becomes a plan, a list of nodes with dependencies (`src/fetech/planning.py`). The executor
-- (`src/fetech/executor.py`) runs the plan node by node or in parallel batches, calls an adapter for
-- each node and gathers what it did in an execution context (`src/fetech/adapters/base.py`) and in
-- a ledger of events. Adapters that use the network share one scheduler
-- (`src/fetech/scheduling.py`), which limits how many operations run at once, in all and for each
-- host, and how soon one follows another on a host. The records that go between the parts are those
-- of `src/fetech/models.py`.
--
-- Around this core stand parts that guard what comes in and goes out. A policy
-- (`src/fetech/security.py`) decides which URLs may be fetched and holds the addresses that it has
-- validated, which the transport (`src/fetech/transport.py`) pins and connects to. The ledger
-- (`src/fetech/ledger.py`) sanitizes what it stores and streams the events of a run to readers while
-- the run goes on. Adapters read archives (`src/fetech/adapters/archive.py`) and crawl sites
-- (`src/fetech/adapters/discovery.py`) within the budgets of the request. Texts are assessed
-- (`src/fetech/quality.py`) before they count as results, and a URL has variants that are tried in its
-- place (`src/fetech/variants.py`).
--
-- The modules and the code they model:
--   Prelude   shared names, Boolean tests, lists, dictionaries as association lists, texts
--   Models    the enumerations and records of `src/fetech/models.py`
--   Security  `src/fetech/security.py`. Url: `normalize_url`, `sanitize_url`, `ensure_safe_redirect`
--             over the parts of a URL, with Canonical and Redact; Policy: `SafeURLPolicy`, with Safe
--             and Validated. Transport: `PinnedNetworkBackend` of `src/fetech/transport.py`; Pinned:
--             the policy and the backend together. Variants: `src/fetech/variants.py`
--   Adapters  Archive: `src/fetech/adapters/archive.py`, the names of members and the loops that
--             extract them, with Bounds, Members and Safe. Discovery:
--             `src/fetech/adapters/discovery.py`, the frontier and `_fetch`; Loop: the loop of
--             `execute`; Report: what comes before and after it; Site, Bounds, Ends, Crawled: the
--             proofs
--   Ledger    `src/fetech/ledger.py`. Document: documents and `sanitize_authenticated_text`; Sanitize:
--             `_sanitize_payload`; Stream: `append`, `update_run`, `events` and `stream`, cut at the
--             awaits. Secret, Named, Clean, Events, Invariant, Steps, Reads, Unsent, Once: the proofs
--   Scheduler `src/fetech/scheduling.py`. Config: `__init__`; State: the fields and the futures;
--             Eligible: `_prune_host_history`, `_next_eligible_waiter`; Pump: `_pump`, `_wake`,
--             `_discard_waiter`, `_discard_cancelled_waiters`; Slots: `_event_loop`, `_acquire`,
--             `_release` and `slot`, cut at the awaits, with the relation of one step to the next.
--             Counts, Invariant and its children, Capacity, Fairness, History: the proofs
--   Executor  Context, Quality: `ExecutionContext`; Budget: `_partition_parallel_budgets`,
--             `_remaining_budget`; Failure: the exceptions, `_adapter_retry_code`,
--             `_retry_code_allowed`; Retry: `_with_retries`; Ledger: `_emit`,
--             `_flush_pending_events`; Attempts: the methods that close attempts and outcomes,
--             `_enforce_approval`, `_status`; Node: `_execute_node`; Batch: `_parallel_batch`,
--             `_parallel_contexts`, `_merge_parallel_context`, `_execute_parallel_batch`;
--             Run: `execute`. The children of these modules hold the proofs
--   Planner   Tables: the constants; Classify: `classify_target` and the choice of capabilities;
--             Nodes: the nodes; Stages: the parts of `plan` in order, `_permitted`, `_reader_nodes`;
--             Plan: the checks, `plan` and `FetchPlan.bind_execution_request`; Registry: `resolve_id`
--             and `get` of `src/fetech/registry.py`; Registry.Validate: its `_validate`, with the
--             lists of Members and what follows in Unambiguous. Lookup, Permits, Serves, Topology: the
--             proofs
--   Quality   `src/fetech/quality.py`: the markers of a page. Language: `detect_language`; Assess:
--             `assess_text`, `assess_binary`. Consistent: the proofs
--   Examples  in each of these but Prelude and Models: concrete runs (CrawlExamples for Discovery)
--
-- State and time. A stateful method is a function from the state to the state and its result; an
-- exception is a value. Between two awaits the scheduler's methods run without interruption, so a
-- step of the relation `Step` is one such piece of code, in any order, in any event loop and with
-- any readings of the clock. Identity of objects is a number. Seconds, ratios and money are
-- numbers of a small unit, so that sums are exact; a share of a float budget is rounded down to
-- that unit. Python's integers have no width. Texts compare by code points; case is folded for
-- ASCII letters.
--
-- Texts and documents. A URL is what `urlsplit` gives of its text, and the network location is its
-- parts; a path is cut at its slashes as `PurePosixPath` does. A JSON document is its tree, and an
-- archive what `zipfile` or `tarfile` gives of it; a value of a document that is neither a text, a
-- container, a natural number, a Boolean nor null stands by the text that is written of it. In the
-- ledger's stream one run and one stream are followed: another stream has a queue of its own, and
-- other runs only add rows. A task may be cancelled at any await, also between the commit of an event
-- and the queues. The URL that `normalize_url` gives is its parts; where its text is read again, the
-- model reads the text.
--
-- Loops. `_pump` runs on fuel, the length of its queue: each round that goes on takes one waiter out.
-- The loop of `execute` runs on fuel, the number of nodes left: each round takes one at least.
-- The loop of a crawl runs on fuel, the greatest number of pages: each round checks one at least.
-- `_with_retries` recurs on the tries that its rule leaves. The other loops are structural.
--
-- Parameters. An adapter is any function from the number of its call and the context to how the call
-- ends and the changed context. The sets of tasks that `asyncio.wait` reports, how a task that
-- is cancelled ends, how a pause ends, and the clock are free. The planner is given the
-- functions on URLs that it calls (`normalize_url`, `sanitize_url_for_request`, the suffix of a path,
-- `detect_named_api`) as the record `Urls`, and the entries of the registry. The policy is given the
-- IDNA codec, `parse_qsl`, `urlencode`, `urlsplit`, `urlunsplit`, what `ipaddress` says of an address
-- and the answers of `getaddrinfo`; the ledger also the matches of the pattern of URLs; the
-- crawl the HTTP adapter, what a page's parser gives, and the functions on URLs; the quality of a text
-- which code points are word characters and letters; the variants which texts are language tags.
--
-- Not modelled: the deadline arithmetic of `slot` and `_normalize_host`; time stamps, versions and
-- the fields that neither planner nor executor reads; the sanitizing of a finished result and the
-- stored run; the validator of `FetchRequest`; `sanitize_output_for_request`; the recovery of runs and
-- the artifacts that the ledger rebuilds; the artifacts that the archive and discovery adapters write,
-- and the exceptions that the fetch of a crawl does not catch; the identifier of a plan;
-- the other adapters, the bridge to httpx, workers, stores, authentication and entry points, which
-- are I/O through libraries.
pub mod Prelude
pub mod Models
pub mod Security
pub mod Adapters
pub mod Ledger
pub mod Scheduler
pub mod Executor
pub mod Planner
pub mod Quality
