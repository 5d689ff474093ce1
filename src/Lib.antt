-- ===== src/Lib.antt =====
-- A verification library for olane, a network of addressable nodes. Each node has an address
-- `o://leader/...` below one leader, talks to its parent, its children and the leader over libp2p,
-- registers with both, watches its connections and comes back to its parent when it loses it. The
-- library models the parts with their own logic; the network, the timers, the clock and the stores
-- are parameters, answers or explicit steps.
--
-- Common: tests, JSON values, lists, texts (UTF-16 units), dictionaries (an association list in insertion order,
-- as a Map) and results, which all parts share.
-- Core.Address: packages/o-core/src/router/o-address.ts (oAddress, with `next`, the hop of a message
-- on its way), with packages/o-core/src/transports and the restricted addresses.
-- Core.Hierarchy: packages/o-core/src/core/lib/o-hierarchy.manager.ts (oHierarchyManager).
-- Core.ResolverChain: packages/o-core/src/router/o-resolver-chain.ts (oResolverChain), over resolvers
-- that are parameters.
-- Core.Notifications: packages/o-core/src/core/lib/o-notification.manager.ts and
-- packages/o-core/src/core/lib/utils/event-filters.ts (Filters).
-- Core.ResponseBuilder: packages/o-core/src/response/response-builder.ts.
-- Core.GracefulShutdown: packages/o-core/src/core/graceful-shutdown.ts, over the order of events.
-- Core.TokenManager: packages/o-core/src/auth/o-token-manager.ts (oTokenManager).
-- Node.LockManager: packages/o-node/src/utils/lock-manager.ts (LockManager); Steps has `withLock` as a
-- relation between configurations of any number of calls, where each call runs to its next `await`;
-- a wait may time out.
-- Node.Registration: packages/o-node/src/managers/o-registration.manager.ts (oRegistrationManager);
-- Flights has its calls in flight as steps.
-- Node.Heartbeat: packages/o-node/src/managers/o-connection-heartbeat.manager.ts. Its events and
-- removals of children are listed in the order they are made.
-- Node.Reconnection: packages/o-node/src/managers/o-reconnection.manager.ts, on Node.Registration.
-- Node.Connections: packages/o-node/src/connection/o-node-connection.manager.ts and
-- o-node-connection.ts (Sending); `connect` is two steps around the dial.
-- Node.HierarchyEvents: packages/o-node/src/o-node.hierarchy-manager.ts, on Core.Hierarchy and the
-- events of Core.Notifications.
-- Node.SearchResolver: packages/o-node/src/router/resolvers/o-node.search-resolver.ts, on the `next` of
-- Core.Address and Core.Hierarchy; the node after the call is a result, since the code may write to
-- its address.
-- Node.Resolvers: the other resolvers of that folder, and
-- packages/o-gateway-olane/src/router/o-gateway.resolver.ts.
-- Node.Routing: packages/o-node/src/router/o-node.routing-policy.ts, and `translate` and `forward` of
-- o-node.router.ts there, on Core.Hierarchy and Core.ResolverChain; what a request is forwarded to is an
-- outcome.
-- Lane.CapabilityErrors: packages/o-lane/src/errors/capability-errors.ts.
-- Lane.StorageManager: packages/o-lane/src/storage/o-lane.storage-manager.ts.
-- Lane.StreamParser: packages/o-lane/src/capabilities/utils/result-stream-parser.ts.
-- Registry.AgentRegistry: packages/o-agent/src/registry/agent-registry.tool.ts.
-- Registry.Memory: packages/o-leader/src/registry/registry-memory.tool.ts (RegistryMemoryTool).
-- Registry.MetricsStore: packages/o-monitor/src/utils/metrics-store.ts.
-- Gateway.Multibase: packages/o-gateway-registry/src/did/multibase.ts.
-- Gateway.Canonical: packages/o-gateway-registry/src/canonical.
-- Gateway.Verifier: packages/o-gateway-registry/src/did, on Gateway.Multibase and Gateway.Canonical.
-- Gateway.Names and Gateway.Resolver: packages/o-gateway-registry/src/registry, the naming policy and
-- the resolver; its verifier is any verifier.
-- Agent: packages/o-agent/src/router/agent.resolver.ts.
-- Approval: packages/o-approval/src/o-approval.tool.ts.
-- Server.Validation: packages/o-server/src/validation.
-- In each part the methods keep their names in snake case, the fields of a class are a record, and an
-- operation takes that record and returns it with what the method returns or throws.
--
-- Bounds. Numbers are natural numbers: counts, times in milliseconds and units of text, far below
-- what a double holds exactly. The digits of base 58 stay below their base, and the carry of one
-- digit needs one step of fuel for each digit that it can leave, which the carry itself bounds. The
-- endless loops of the reconnection manager run over a list of rounds, as many as the network makes
-- of them; the retries of the token manager recur on the retries that are left.
--
-- Not modelled: logging; handleNodeConnected of the reconnection manager; the start of the heartbeat's
-- and the registry's timers; the sharing of a token refresh in flight; hashes of addresses;
-- the parent's entry in the hierarchy and the transports that it takes from the leader at a registration;
-- the persisting of a lane to the configuration; the events of a stream; custom metrics trackers;
-- the response that a node builds from a local execution, and the dial of a forwarded request; the stack
-- of an error; the other
-- packages, which call libp2p, language models, storage or HTTP services.
pub mod Common
pub mod Gateway
pub mod Agent
pub mod Approval
pub mod Core
pub mod Lane
pub mod Node
pub mod Registry
pub mod Server
