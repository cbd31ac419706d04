-- ===== src/Lib.antt =====
-- kitematic: an execution kernel for AI agents, and its control plane.
--
-- An agent's intent is executed by the runtime (kernel/runtime.py), which asks a policy evaluator, a
-- capability check, a router, a tool gateway and a checkpoint store in this order, and counts a
-- tenant's executions in an isolation boundary (kernel/isolation.py). The loop (kernel/lifecycle.py)
-- runs intents one after the other within a budget (kernel/resources/budget.py), logs events
-- (kernel/events/models.py) and counts in a metrics registry (kernel/observability/metrics.py). The
-- control plane has a lifecycle manager (control_plane/lifecycle/manager.py), which keeps a state
-- machine (control_plane/orchestrator/state_machine.py) for each execution, a coordinator of steps
-- (control_plane/orchestrator/coordinator.py), and a policy engine (control_plane/policy/engine.py),
-- which picks a rule for a request and keeps its decisions in a cache (control_plane/policy/cache.py).
-- The quota manager (api/rest/quotas.py), which the runtime may be given, limits the rate and the
-- number of a tenant's concurrent executions. The adapters of control_plane/adapters/ are what the
-- runtime calls: the policy engine, a router over the tool registry, whose tools the gateway
-- (kernel/gateway.py) calls, and the persistence of states in a repository of checkpoints
-- (infrastructure/storage/checkpoint/in_memory.py is one). Another adapter lets the coordinator's
-- plans be executed by an engine for single steps (kernel/execution/). Events are published to the
-- subscribers of an execution (kernel/events/memory.py), API keys are authenticated by
-- api/auth/provider.py, infrastructure/storage/memory/in_memory.py keeps what agents remember, and
-- core/policies/ has the capabilities that policies may require. Checkpoints can also be kept in files
-- (infrastructure/storage/checkpoint/file_system.py) and events in the streams of a Redis server
-- (kernel/events/redis_streams.py). Plugins are discovered, validated and installed by agents/loader/,
-- control_plane/registry/ keeps agent instances and templates, the marketplace
-- (control_plane/governance/marketplace/) lists extensions, and ai_gateway/ calls model providers.
--
-- Files:
--   Base             lists, texts, outcomes (a value or an exception) and dicts
--   Kernel/States    kernel/state.py; States/Flow has the legal transitions as a relation
--   Kernel/Errors    kernel/exceptions.py and the exceptions of kernel/isolation.py
--   Kernel/Tenant    kernel/tenant.py
--   Kernel/Isolation kernel/isolation.py; Counts and Ownership have its laws
--   Kernel/Metrics   kernel/observability/metrics.py
--   Kernel/Budget    kernel/resources/budget.py
--   Kernel/Values    JSON-like values, for dict[str, Any]
--   Kernel/Events    kernel/events/models.py
--   Kernel/Contracts the data and the abstract classes at the top of kernel/runtime.py
--   Kernel/Runtime   KitematicRuntime: Defs has its setters and lifecycle, Stages the chain of
--                    _execute_quota_guarded, Execute execute_intent; the others have theorems
--   Kernel/Loop      LoopController: Classify, Defs and Run are its operations
--   Kernel/Tools     kernel/resources/tool_registry.py; Named and Distinct have its laws
--   Kernel/Gateway   kernel/gateway.py; Trail has its theorems
--   Kernel/Execution kernel/execution/ and the contracts of a step in core/contracts/; Step is on one
--                    step, Steps on several
--   Kernel/Publisher kernel/events/memory.py; Tenants and Isolation have its theorem
--   Kernel/Streams   kernel/events/redis_streams.py
--   Kernel/Factory   kernel/events/factory.py
--   Kernel/Tests     concrete collaborators, tenants and runs
--   ControlPlane/StateMachine  control_plane/orchestrator/state_machine.py
--   ControlPlane/Coordinator   control_plane/orchestrator/coordinator.py
--   ControlPlane/Lifecycle     control_plane/lifecycle/manager.py: Moves has what an operation does
--                    to one machine, Reachable and Effects the theorems on the manager
--   ControlPlane/Policy        Rules is core/policies/policy.py and the choice of a rule, Cache is
--                    control_plane/policy/cache.py, Engine control_plane/policy/engine.py;
--                    Decisions, Wildcard and Fresh have theorems
--   ControlPlane/Adapters      control_plane/adapters/: Router, Policies, Checkpoints and Executor are
--                    its four files, the modules below them and Routes have theorems
--   ControlPlane/System        the runtime over the adapters, the gateway and the quota manager, an
--                    assembly that the repository leaves to the caller; Granted and Restorable have
--                    theorems on the whole
--   ControlPlane/Registry      control_plane/registry/memory_instance_repository.py and
--                    memory_template_repository.py; Listed has the theorem
--   ControlPlane/Tests         concrete executions, rules and requests
--   Core/Capabilities          core/policies/capability.py, capability_registry.py and
--                    capability_catalog.py; Catalog has the built-in capabilities, Registered the
--                    theorem
--   Core/Domain      core/domain/execution.py, approval.py and agent_manifest.py
--   Core/Tests       the built-in capabilities in a registry
--   Storage/Indexed  what the two stores in memory share
--   Storage/Checkpoints        core/domain/checkpoint.py and
--                    infrastructure/storage/checkpoint/in_memory.py; Index has its theorem
--   Storage/Repository         core/contracts/checkpoint_repository.py, as operations and laws, and the
--                    store in memory as an instance
--   Storage/Documents          the JSON document of a checkpoint in
--                    infrastructure/storage/checkpoint/file_system.py
--   Storage/Files    the files and the index there, as the writes that a save does: Refines compares
--                    them with the store in memory, Interrupted has saves that are cut off
--   Storage/Memories core/domain/memory.py and infrastructure/storage/memory/in_memory.py; Agents has its
--                    theorem, with Listed on the index and Ordered and Sorted on the order
--   Storage/Tests    concrete checkpoints and memories
--   Api/Auth         api/auth/provider.py and core/identity/auth_context.py; Keys has its theorem
--   Api/Quotas       api/rest/quotas.py, and quota_calls, by which the runtime calls it; Rate and
--                    Concurrent have theorems, Tests concrete requests
--   Api/Audit        api/audit/recorder.py
--   Marketplace/Manifest       domain/extension_manifest.py, model/invariants.py and loader/ of
--                    control_plane/governance/marketplace/
--   Marketplace/Registry       registry/extension_registry.py and enterprise/private_marketplace.py there;
--                    Listed and Pages have theorems
--   Marketplace/Reviews, Artifacts and Checks   governance/review_service.py,
--                    distribution/artifact_store.py, governance/security_checker.py,
--                    enterprise/policy_enforcer.py and domain/publisher.py there
--   Plugins/Manifest core/domain/plugin.py and core/domain/capability.py
--   Plugins/Validator          agents/loader/validator.py; Parts is on single fields, Accepted on all
--   Plugins/Directories        agents/loader/discovery.py and installer.py; Discovered and Installed
--                    have theorems
--   Plugins/Bridge   agents/loader/registry_bridge.py
--   ModelGateway     ai_gateway/registry/adapter_registry.py and ai_gateway/adapters/local.py, with
--                    Streamed on its stream; Json, Providers and Answers are the adapters openai.py,
--                    anthropic.py and gemini.py there: Told is on their streams, Same on whole and
--                    streamed answers
--
-- State and exceptions. An object is a record, a method that changes it returns the new record, and
-- a method that may raise returns an Outcome. Awaited calls run one after the other: what another
-- task does between two of them is not modelled. The collaborators of the runtime are a parameter: a
-- record of functions on a state of their own, of which nothing is assumed. Clock readings, fresh
-- identifiers, the hash of a set of capabilities, the clients of the gateway, the HTTP client of the
-- model adapters, the json library, the parser of versions, the digests of states, keys and packages,
-- the Redis server, the texts of Python's own type errors, and the printing of numbers with decimals
-- are arguments. Numbers in JSON are natural numbers. Confidence and the remaining budget of a planned
-- step are counted in thousandths. A dict is its list of entries in the order of insertion. Numbers that the
-- code only counts up are natural numbers.
--
-- What the file system does with the path of a plugin whose name is no name of a directory is a
-- parameter.
--
-- A file is what a reader makes of it: the document that was written, or nothing that can be read; its
-- name is an identifier without a slash. A pattern is a scanner over code points.
--
-- Every recursion is on a list, but for the printing of a number n in Base/Text, which has n + 1 as
-- its fuel, more than the number has digits, and the chunks of a text in ModelGateway, whose fuel is
-- one more than the text has characters: each chunk takes one at least.
--
-- Not modelled: logger and tracer, which only report; times that are stored and never read; the
-- printing of records to dicts but for the budget, whose printed form goes into an event; the readers
-- of the publisher's queues; the publisher over Redis Pub/Sub; the REST application; the reading of
-- settings and YAML files; the repository's scripts.
pub mod Base
pub mod Api
pub mod ControlPlane
pub mod Core
pub mod Kernel
pub mod Marketplace
pub mod ModelGateway
pub mod Plugins
pub mod Storage
