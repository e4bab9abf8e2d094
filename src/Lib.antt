-- ===== src/Lib.antt =====
-- Verification of the computer-use automation runtime: the path that every action takes to a surface,
-- and the handing of a session between automation and people.
--
-- A `Dispatcher` (src/cua/runtime/dispatcher.py) takes an action from automation or from a person. It
-- refuses a stale lease epoch, resolves the action's target on a snapshot of the surface
-- (targeting/resolver.py), asks the policy engine (policy/engine.py) for an authorized action, gives
-- that to the surface's driver (surfaces/base.py), looks where the surface went, and records each of
-- these as an event (evidence/bus.py), redacted (policy/redact.py). The engine asks the allowlist, the
-- risk classifier and, for an irreversible step, the gate on approvals (policy/allowlist.py, risk.py,
-- irreversible.py). When automation is stuck, the `SessionBroker` (hitl/broker.py) pauses the session
-- and queues a request (hitl/lease.py, intervention.py); an operator claims it, acts through the same
-- dispatcher, and releases it; reanchor.py decides from the screen where automation may resume. The
-- `ReplayExecutor` (replay/executor.py) runs a capability: it binds each step's references, reads each
-- screen by replay/classify.py, dispatches the step, waits by replay/wait.py, applies declared
-- remedies, verifies the checkpoint, and ends with a result, or for a person when the capability says
-- so. A discovery run is bounded by agent/stop.py; catalog/approvals.py shows what reviewers decided.
--
-- Which file models what (paths of sources from the repository's root):
--   Base             the shared vocabulary: Boolean tests and lists over the native numbers, results,
--                    dictionaries as association lists in the order of insertion
--   Domain           src/cua/domain/: Actor, Snapshot, Target, Action, Capability, Approval, Result;
--                    Text and Predicates are predicates.py (with values.py), Binding tenant_binding.py
--   Policy           src/cua/policy/: Config (config.py), Allowlist, Risk, Irreversible, Engine
--                    (engine.py and authorized.py), Secrets
--   Targeting        src/cua/targeting/: Resolver is resolver.py, Candidates candidates.py with Names, the
--                    comparison of names of perception/normalize.py; Domain/Snapshot/Tree has the walks
--                    of a snapshot's tree (domain/snapshot.py); Synthesize is synthesize.py
--   Evidence         Bus is src/cua/evidence/bus.py, Redact src/cua/policy/redact.py, Json the values
--                    of a payload
--   Surfaces         src/cua/surfaces/base.py
--   Runtime          src/cua/runtime/dispatcher.py: what it is given and returns (Command), Dispatcher,
--                    the events that it records (Payloads), and Entrypoint (`open_entrypoint`); Capture
--                    is src/cua/runtime/capture.py
--   Hitl             src/cua/hitl/: Lease, Intervention, Reanchor, and broker.py in Handoff (what it
--                    keeps) and Broker (its methods)
--   Replay           Classify, Wait, Inputs and Bind are src/cua/replay/classify.py, wait.py, inputs.py
--                    and bind.py, Transforms transforms.py, Result the result of a run
--                    (src/cua/domain/result.py); Limits (budgets, epochs, lease) and Executor are
--                    executor.py: State what a run works on, Ending `_fail`, `_business_outcome` and
--                    `_verify_checkpoint`, Stepping `_dispatch_step` with the wait on the live surface,
--                    Recovery `_recover` and `_run_capability`, Flow `_run_step`, `_execute` and `run`,
--                    Resume `resume`
--   Assist           Recovery is src/cua/assist/recovery.py
--   Agent            Budget is src/cua/agent/stop.py with the loop of agent/loop.py, Tools tools.py and
--                    the model's answers (llm.py), Perform `_perform` of loop.py and
--                    Discovery `run`
--   Catalog          Approvals is src/cua/catalog/approvals.py
--   Tests            runs on a small deployment
-- A child module of a modelled part is named for what it proves (Engine/Permit, Lease/Stale).
--
-- How state and operations correspond: a Python object is a record, and a method that assigns to it
-- returns the new record beside its result. A method of the broker may raise after it has changed
-- something, so it returns the broker beside the exception too. `authorize` and `execute` have the
-- names of the methods; a step of a long method is a function by clauses on what the step has found.
-- The messages of exceptions and decisions are data types whose constructors name the case. A method
-- of the executor works on the live state (the session or its broker, the secrets' resolver, the held
-- epoch) in a monad: it gives a value, lets an exception out, or has run out of the rounds it was
-- given.
--
-- What is an argument. Python's library: `str.lower`, `str.upper`, `re.search`, `re.match`,
-- `re.fullmatch`, `urlparse`, `str.replace`, `re.sub`, the environment (TextHost, UrlHost, InputHost,
-- RedactHost, SecretHost). The surface: the driver over any state of the surface, with the hit test of
-- a raw gesture on its geometry (SurfaceDriver). Parts of the repository that are not modelled: the
-- hash of a capability and the product of a tenant binding (Derivation), the texts of the trace, of
-- requests and of results (Printer, BrokerTexts, RunTexts), the taking and saving of pictures
-- (CaptureHost). What happens around a run, the readings of the clock, the ids drawn and what the
-- surface does by itself between two calls, is a function of the number of the reading (Surroundings).
-- Elsewhere drawn ids and the clock's reading are arguments of a method, and a method that reads the
-- clock more than once reads the same time here.
--
-- Bounds: a time is a number of microseconds from `datetime.min`, and the sum in `claim` raises
-- outside `datetime.min` to `datetime.max`. A count or an ordinal of an artifact is not negative here,
-- where the code treats a negative one like 0 or like one out of range. A loop over a sequence is a
-- recursion on a list. The two loops that end by a clock or a budget take fuel, a number of rounds,
-- and a theorem says how many are enough: `wait_for` ends by the first poll after its deadline, and a
-- discovery run one round after the steps that its budget allows. A run of the executor has one round
-- of a step for each recovery that it may attempt and one more, two levels of runs since a remedy does
-- not run another, and for a wait the polls that its surroundings give. The walks of a snapshot's tree
-- take as many rounds as it has nodes: Snapshot/Tree/Enough.
--
-- Not modelled: the recorder, the catalog's artifacts, perception, run records, the drivers of browser
-- and desktop, the operator console, the command line, the evaluations. The dispatcher's navigation
-- guard, the saving of snapshots and pictures, and the texts written for people are left out of the
-- modules that are modelled.
pub mod Agent
pub mod Assist
pub mod Base
pub mod Catalog
pub mod Domain
pub mod Evidence
pub mod Hitl
pub mod Policy
pub mod Replay
pub mod Runtime
pub mod Surfaces
pub mod Targeting
pub mod Tests
