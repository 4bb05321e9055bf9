-- ===== src/Lib.antt =====
-- The peer-chat bridge: a local inbox between coding sessions, with a SQLite store per thread, hooks
-- that bring messages into a running turn, and a dispatcher that queues an idle session awake. The
-- model follows the Python sources under src/.
--
-- Parts and files:
--   Store      class Store of src/peer_chat.py: the tables as one record (Store.Rows has the rows and
--              the trigger that stamps times). A transaction of the source is one function on the
--              record, since SQLite runs it alone; `now` is the clock in it. Store.Progress, Store.Keys,
--              Store.Unique, Store.Sound and Store.Accept hold its theorems.
--   Wake       src/peer_wake.py: the evidence of an idle wake. record_state is `_record`,
--              Wake.Events has record_wake and active_hook, Wake.Rank and Wake.Decide the theorems.
--   Budget     src/peer_budget.py: allowances, their renewal by the owner, and delivery_state.
--   Peers      src/peer_peers.py: the table of enrolled peers that a configuration holds; Peers.Resolve
--              has resolve_peer and expected_endpoints, Peers.Live the theorems on them.
--   Selection  select_peer of src/peer_peers.py and select_session of src/peer_registry.py: the loop, and
--              in Selection.Strategies what it tries.
--   Hooks      src/peer_hooks.py: Hooks has the loop that offers messages to a turn, Hooks.Deliver all of
--              `deliver`, Hooks.Offers, Hooks.Safety and Hooks.Phase the theorems.
--   Dispatch   `dispatch` and `wake_idle` of src/peer_chat.py: Dispatch.Claim and Dispatch.Waking are
--              about the two claims, Dispatch.Tick about one tick with its calls.
--   Watch      src/peer_watch.py: one pass of the watchdog over a bridge, as a list of events. Its times
--              are whole seconds. Watch.Attempts and Watch.Pace are about its launches.
--   Lifecycle  src/peer_lifecycle.py: the end of a turn as the rollout of the thread shows
--              it (Lifecycle.Ending), and `reconcile` (Lifecycle.Reconcile).
--   Registry   src/peer_registry.py: permission classes, the routing of hooks, the lifecycle seen before a
--              bridge existed.
--   Setup      src/peer_setup.py: merge_hooks and the file that install writes (Setup.Install), and in
--              Setup.Review the review of hooks and enable_reviewed, on a client of Codex with a state.
--   Notices    src/peer_delivery.py: the result of a send and the passes of `notify`; Notices.Once is about
--              two of them. Its store_notice and take_notices are in Store.
--   Connect    src/peer_connect.py: caller_agent and `connect`, on the stores of all threads; Connect.Caller
--              is about the ancestors of a process, Connect.Retained about what `connect` writes.
--   Listener   `serve` of src/peer_chat.py: Listener has the matching of a new connection, Listener.Serve the
--              rest of the loop, the start and the calls of the worker. Admitted and Turns are about who
--              is connected, Rows about what connections write, Lasting and Opening about deadlines and
--              the start. Begin is `start_bridge` up to the launch of the listener, and Carried, with the
--              lemmas of Written, what that keeps of an earlier bridge.
--   Observe    src/peer_observe.py: Counts has `_read_db`, Shown the row and `_runtime_state`, Warning the
--              warnings, Evidence and Snapshot `snapshot`, Render the tables and `snapshots`, Clean
--              `sanitize`, Recipients `message_status`; Reachable, Alarm, Totals and Width the theorems.
--   Frames     src/peer_chat.py: class LineBuffer over lists of bytes; Decode has decode_frame, Outbound
--              what `outbound` writes, Scan and Envelope the expressions of both; Pairs, Hops, Attributes
--              and Trip the theorems.
--   History    the steps of all these writers on one store in any order, as a step relation. A step is a
--              transaction, but the hook of src/peer_hooks.py, which makes several, is one step.
--   Base       shared types: JSON values (Base.Json), text (Base.Text), integers (Base.Int), Booleans
--              and lists over the native numbers.
--   Examples   every result at a concrete store, payload or host.
-- How they interact: a hook calls Budget (renewal), Wake (active_hook) and Hooks on one Store; the
-- dispatcher reads Peers and writes Store and Wake; Peers keeps its table under the key `config` of
-- the store's table `meta`.
--
-- What the model fixes: JSON is kept decoded, as the source decodes it on every read, with objects as
-- ordered lists of fields; times are whole ticks of the clock; a string is a list of characters. An exception
-- of the source is `none` or a constructor of the result. Python's int() is an argument of
-- parse_budget; paths and SHA-256 are the record Peers.Host, whose laws say that a resolved path is
-- absolute, not blank and its own resolution. Every loop runs over a list or over the
-- characters of a text, but for the decimal digits of a number n, which take n + 1 of fuel,
-- and the walk of caller_agent, which the source bounds by 64 steps.
--
-- Not modelled: sockets, processes, file locks and SQLite itself; the discovery of sessions, which reads
-- the state of other processes; the command line; the installer.
-- An age is in whole seconds; how many ticks of the clock a second has is an argument.
pub mod Base
pub mod Store
pub mod Wake
pub mod Budget
pub mod Peers
pub mod Selection
pub mod Hooks
pub mod Dispatch
pub mod History
pub mod Watch
pub mod Lifecycle
pub mod Registry
pub mod Setup
pub mod Notices
pub mod Connect
pub mod Listener
pub mod Observe
pub mod Frames
pub mod Examples
