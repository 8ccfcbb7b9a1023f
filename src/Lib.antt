-- ===== src/Lib.antt =====
-- fipa-wasm: the conversations of its agents, their platform, and who may do what.
--
-- The program is an agent platform. Agents talk in FIPA ACL messages, and every conversation
-- follows an interaction protocol. A protocol is a state machine behind one trait,
-- `ProtocolStateMachine`: `validate` says whether a message is allowed next, `process` takes it,
-- `is_complete`, `is_failed`, `expected_performatives`, `state_name` and `message_history`
-- describe the state. The agent actor makes a machine with `create_state_machine`, keeps it under
-- the conversation's identifier, and gives it each message of that conversation. The coordinator
-- of an auction, a negotiation, a brokerage or a search also calls methods of its machine
-- (`submit_bid`, `start_round`, `consolidate`, `add_candidate`), which change the same state as
-- `process` does. The registry tells where an agent is and who offers a service, and the
-- supervisor restarts agents that fail. The platform's own agents keep the agents' names and life
-- cycle (AMS) and the yellow pages (DF). The policy engine decides by roles and permissions what
-- an agent may do, and bundles and messages travel as blocks in one container format. The
-- scheduler says which of an agent's behaviours run, and the nodes of a cluster share where
-- agents and services are by a replicated log.
--
-- Which file models what (paths below crates/fipa-wasm-agents/src, files below this folder):
--   Acl                  proto/fipa.proto: messages, performatives and protocol types. The
--                        enumerations are numbers on the wire: `as_i32` and `try_from`.
--   Float                `f64`, a parameter of the auctions and the recruiter
--   Protocol             protocol/state_machine.rs: errors, results, `ConversationBase`, replies
--   Protocol/Machine     the trait, as a record of a state type and its operations; below it what
--                        any implementation keeps (Laws), a conversation as the list of the
--                        messages given to a machine (Conversation), and the log of `process`
--                        (Log)
--   Protocol/Factory     `create_state_machine`; Conversations has the theorem on it
--   Protocol/Request, Query, Propose, Subscribe, ContractNet, EnglishAuction, DutchAuction,
--   Brokering, Recruiting, IteratedContractNet
--                        the file of protocol/ with that name in snake case: the state type, the
--                        record, every method and the implementation of the trait
--   Protocol/IteratedContractNet/Calls, Protocol/Brokering/Consolidation
--                        methods of the two that have a file of their own
--   Protocol/X/Laws      the machine of X keeps the contract of the trait
--   Protocol/X/...       what X adds: Trace, Notifications, Bids, Prices, Results, Ranking,
--                        Rounds, Bidders, and Messages where a machine is driven by messages alone
--   Protocol/Lawful, Expected
--                        statements over several protocols
--   Protocol/Samples, Examples
--                        sample data and one concrete run for each theorem
--   Acl/Capabilities     protocol types as numbers, `AgentCapabilities`
--   Actor                actor/agent_actor.rs, with the messages and errors of actor/messages.rs
--                        and the traits of content/verify.rs: the actor's state
--   Actor/Delivery       `process_mailbox`, `handle_acl_message`, sending; below it what a message
--                        leaves unchanged (Frame), what the loop does to a conversation and to the
--                        queue (Conversations) and the content verifier (Boundary)
--   Actor/Lifecycle      start, tick and stop, and the handlers; below it the conversations over a
--                        life of deliveries, ticks and starts (Talks), by the messages that were
--                        delivered (Deliveries), and the capabilities (Gate)
--   Actor/Registry       actor/registry.rs: the maps of names, nodes and services; below it the
--                        answers read off the log of updates (Log)
--   Actor/Supervisor     actor/supervisor.rs: the table of supervised agents, failures, restarts,
--                        stops and events; below it what the restarts remember (Restarts)
--   Actor/Examples       one agent and the runs for the theorems of the actor
--   Platform/Ams         platform/ams.rs: state and names; below it the message handlers
--                        (Handlers), what they do to an agent's life cycle (Refinement) and what
--                        no call takes back (Taken), and the names that are made up (Names)
--   Platform/Df          platform/df.rs: registration and its removal; below it search and
--                        subscriptions (Search), the index by agent (Index, Removal) and the
--                        limits (Limits)
--   Security/Permissions security/permissions.rs: actions, resources, sets of permissions; below it
--                        what a set decides (Decisions) and how resources are written (Patterns)
--   Security/Policy      security/policy.rs: roles, bindings, policies; below it the engine
--                        (Engine, with the inherited roles in Resolution, Unvisited, Walks and
--                        Circular, the caches in Caches, Roles and Stale and the decisions in
--                        Decisions) and the reader of policy files (Yaml)
--   Behavior             behavior/mod.rs: behaviours and when they run again (Timing); Scheduler
--                        has the scheduler, and below it what holds of its behaviours (Soundness,
--                        Calls, Runs)
--   Consensus            consensus/state.rs: the state that each replica applies a log to, and
--                        what replicas agree on (Replicas)
--   Content/Block        content/block.rs: the block container; below it its round trip
--                        (RoundTrip) and what is not decoded (Prefixes)
--   Base                 Boolean tests, lists, integers, results, `HashMap`, and texts as
--                        characters (Text, Trim), decimals (Decimal) and maps by number (Table)
--
-- How the code is carried over:
--   - A method with `&mut self` takes the value and returns the new one, with its result beside
--     it where it has one. `process` is `read_performative`, `validate_transition` and `advance`
--     in the order of the source: `advance` records the message, stores what the `match` on the
--     performative stores, sets the state and picks the result. An `Err` before that leaves the
--     value unchanged.
--   - `validate_transition` is the table `transition`, clause for arm, in the order of the
--     source.
--   - A fresh UUID and the clock are arguments of the functions that read them.
--   - `HashMap` is an association list. A walk over it takes a `HashOrder`, any function that
--     permutes the entries, so that no theorem depends on the order.
--   - `f64` is a `Float`: a type with the operations that the code uses. A theorem that relies on
--     IEEE 754 takes `IsIeee`: `<` is irreflexive and transitive, and a sum with NaN is NaN.
--   - `u32` and `u64` counters are natural numbers with the wrap-around of a release build
--     written out (`% 2 ^ 32`, `% 2 ^ 64`); the `i32` that counts made-up names is its 32-bit
--     word. A length is a natural number.
--   - `sort_by` of the recruiter is a stable insertion sort with the source's comparison.
--   - A byte string is the list of its codes; `serde_json` is a function argument.
--   - The actor is a client of the trait: it holds values of any implementation (`Boxed`). The
--     WASM runtime, the content verifier and the outbound packager are parameters. What it asks
--     of other actors and of its context (`do_send`, `ctx.stop()`) is appended to the field
--     `requests`.
--   - The loop of `process_mailbox` runs as many rounds as there are messages in the queue, and
--     no round adds one; a theorem says that this empties the queue. Every other function is
--     structural, but two that have fuel: the search for a free name has one round more than
--     there are agents and reserved names (fewer than 2^31, for the counter not to wrap), and the
--     resolution of roles as many calls inside one another as there are roles, and one more. A
--     theorem on each says that this is enough.
--   - The AMS enters an agent when a future ends that a creation spawns: the futures that have
--     not ended are part of the state, and their ends are steps of their own.
--   - A policy file is its text; `to_lowercase` and the reading of the file are function
--     arguments.
--
-- Not modelled: log lines; `as_any` and `clone_box`, which only convert types; the rest of the
-- platform. Of the actor, the capture of its state and its migration hash and ship the WASM
-- module, and `RegisterService` only logs. Of the supervisor, decoding a bundle, the set-up of a
-- new actor, routing and the final shutdown. The sending of notifications by the directory, which
-- the code leaves out as well. Credentials and sessions, persistence, the storage and network of
-- Raft, the content languages but the block container, and the UNL crates have their own state
-- and are not described here. The network, the WASM engines, the process manager, the dashboards
-- and the tools call libraries and the operating system.
pub mod Base
pub mod Acl
pub mod Protocol
pub mod Float
pub mod Actor
pub mod Behavior
pub mod Consensus
pub mod Content
pub mod Platform
pub mod Security
