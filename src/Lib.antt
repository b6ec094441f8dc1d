-- ===== src/Lib.antt =====
-- NexusGrid: the task core, the scheduler of the master, deposits, the usage ledger, relays and groups.
--
-- A master keeps a table of tasks. Each task carries a status, which moves along a graph of legal
-- transitions, and a JSON environment with the scheduler's bookkeeping. Workers pull tasks: the
-- master scores the workers, picks the task that a worker is to get, and mints a lease. Background
-- passes queue the steps of a workflow whose prerequisites are done, and queue failed tasks again
-- when their back-off has passed; others promote the standby of a dead service, and drive the
-- deposits that peers keep for one another through eviction, retries and purge. A node keeps a ledger
-- of the receipts that consumers sign for the work of others, and the relays that its groups are
-- reached over; the members of a group tell one another of what changes by frames, which each node
-- checks and applies to its own tables, and which hosts of relays pass on. The modules share the
-- process-wide STATE and the tables, of which each part takes and returns what it uses: the records
-- `Node`, `Depot`, `Services`, `Presence`, `Ledger`, `RelayNode`, `InboxNode`, `Desk`.
--
-- Prelude            Shared names: Boolean tests (Tests), lists (Lists), dictionaries as association
--                    lists (Dicts), `strip` and comma-separated columns (Text), integers with
--                    their sums and their lexicographic order (Int).
-- Tasks.State        nexus/core/constants.py: the states and the transition graph; Graph has the
--                    runs along it.
-- Tasks.Env          TaskRecord of nexus/storage/models.py, and the environment's readers and
--                    writers of nexus/tasks/metadata.py; the environment is a record with an
--                    optional value for each NEXUS_META key.
-- Tasks.Metadata     extract_task_metadata of nexus/tasks/metadata.py.
-- Tasks.Node         The part of nexus/core/state.py that is used, and nexus/tasks/queue.py.
-- Tasks.Lifecycle    nexus/tasks/lifecycle.py: set_task_status, try_schedule_retry, the markers;
--                    History and Ran have the histories of a task.
-- Tasks.Lease        nexus/tasks/lease.py.
-- Tasks.Resume       nexus/tasks/workflow_resume.py; Rows and Lists follow its loops and its plan.
-- Scheduler.Release  release_ready_tasks of nexus/scheduler/dag.py and a round of
--                    nexus/scheduler/retry.py, over the rows of the task table.
-- Scheduler.Reliability  nexus/scheduler/reliability.py.
-- Scheduler.Images   image_allowed of nexus/runtime/capacity.py, and the image gate of
--                    nexus/scheduler/fitness.py.
-- Scheduler.Fitness  nexus/scheduler/fitness.py.
-- Scheduler.Selection  nexus/scheduler/selection.py.
-- Storage            Deposits that peers keep for one another: Deposit has the row of
--                    nexus/storage/models.py and the shared state, Host and Depositor the passes of
--                    nexus/scheduler/dag.py on each side, Passes their order within
--                    foreign_storage_lifecycle_pass, Keys nexus/runtime/foreign_storage_keys.py.
-- Services.Health    service_health_pass of nexus/scheduler/dag.py.
-- Presence           nexus/telemetry/presence.py.
-- Usage              store_and_apply of nexus/runtime/usage_receipts.py and record of
--                    nexus/runtime/group_compute_telemetry.py; Summary has global_usage_summary,
--                    Issue issue_compute_receipt, Sampling sample_once. Shares, Steps and Counted
--                    have what one receipt changes.
-- Relay              nexus/runtime/relay_state.py; SelfHeal has nexus/runtime/relay_selfheal.py,
--                    Pause nexus/runtime/relay_pause.py. Trail has the histories of a binding.
-- Groups             The tables of nexus/storage/models.py that frames change, and
--                    nexus/security/group_permissions.py. Roster, Roles, Chat, Requests and Relays
--                    have the handlers of nexus/runtime/group_inbox.py, Handlers their gates, Inbox
--                    dispatch_inbound_frame with FrameDedupeCache of nexus/security/group_frame.py,
--                    Fanout relay_inbound_frame. Delivery has nexus/runtime/group_decisions.py.
--                    Steps lifts what each handler keeps to any number of frames.
-- Throttle           nexus/networking/storage_throttle.py.
--
-- Conventions. A Python function that mutates a task and STATE takes both and returns both. The
-- clock is an argument. Times are whole milliseconds, so that seconds are multiplied by a thousand,
-- and the texts of the clock in the tables of groups;
-- loads and benchmark scores are whole numbers; a ratio is a pair. Numbers in the environment are
-- not negative, since each writer clamps them. A message that the code formats is a constructor with
-- the values it shows. Names resolved over the network and manifests read from an archive are
-- parameters, as are signatures and the starting of processes. All loops run over lists, the
-- wait of the throttle over a list of what its rounds find, so that other callers may come between.
--
-- Not modelled: transport, HTTP and the user interface, containers and processes, cryptography,
-- the other group features (invites, endpoints, the publishing of frames and their catch-up), the
-- automatic rescue of deposits, and the transfer of chunks. The payload of a frame is modelled as it
-- is read, its JSON as a constructor; the checks of signature and grant, the seals and the fingerprint
-- of a module are parameters. Of the exceptions that may end a round of deliveries, only
-- those out of a post are modelled, and of the throttle not its pause for a lack of memory.
pub mod Prelude
pub mod Tasks
pub mod Scheduler
pub mod Presence
pub mod Storage
pub mod Services
pub mod Usage
pub mod Relay
pub mod Throttle
pub mod Groups
