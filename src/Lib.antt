-- ===== src/Lib.antt =====
-- Verification of the undermoon operator.
--
-- The program is a Kubernetes operator, with a scheduler plugin and a checker of clusters beside it.
-- One run of the operator (Reconcile of controllers/undermoon_controller.go) creates the brokers,
-- the coordinators and the storage of a cluster, chooses the master broker, tells it which server
-- proxies there are and how many nodes the cluster has, and then scales the storage down or updates
-- pods. The brokers keep their metadata through an HTTP server of the operator. The checker writes
-- keys to a cluster through a client that follows redirections, reads them back, and stops with a
-- report where a value is not the one that it remembers; meanwhile it keeps the last lines of the
-- nodes' MONITOR streams.
--
-- Files:
--   Prelude, Prelude/: shared names, Boolean tests, lists, texts as lists of bytes, decimal numbers.
--   Checker/Ring and its children: the ring buffer of checker/pkg/monitor.go.
--   Checker/Monitor and its child: the MONITOR clients of checker/pkg/monitor.go.
--   Checker/Slot and its children: checker/pkg/slot.go, and genKey and genLuaKey of checker/pkg/kv.go.
--   Checker/Tags: newSlotTags of checker/pkg/utils.go.
--   Checker/Client and its children: checker/pkg/client.go. A call takes the client, which holds what
--     is outside of it, and returns a result, an address and the client. Client/Chain and
--     Client/Store are two descriptions that Exec is compared with: the redirections that the nodes
--     give, and one store that the nodes are together.
--   Checker/Keys and its children: checker/pkg/kv.go and the rest of utils.go. A check is an action on
--     a kvChecker; Keys/Sound and the files after it are the rules for what a check keeps.
--   Controllers/Types: api/v1alpha1/undermoon_types.go and the Kubernetes objects.
--   Controllers/Io and its children: actions. An action takes a world, which is an environment and
--     the log of the requests sent so far, newest first, and returns a result and a world. The
--     Kubernetes API, the brokers' HTTP interface, the coordinators and the clock are a record of
--     functions (Outside) that every controller takes as a parameter, without any hypothesis.
--   Controllers/Utils, Broker, Coordinator, Storage: utils.go, broker.go, coordinator.go, storage.go
--     and the names of meta.go; Unchanged has theorems about the manifests, and
--     Utils/Defaults about the defaults that the API server sets; Utils/Equality and Utils/Laws are about
--     the comparisons of utils.go.
--   Controllers/CoordinatorClient: coordinator_client.go, and the pool of Redis clients of utils.go.
--   Controllers/BrokerClient and its children: broker_client.go; Resources: the creation of all objects, from the
--     controllers and the guards of utils.go.
--   Controllers/StorageController, BrokerController, MetaController: the controllers' steps, with
--     coordinator_controller.go in BrokerController.
--   Controllers/MetaStore, MetaServer: the metadata store of meta_controller.go, and meta_server.go.
--   Controllers/Reconciler: undermoon_controller.go.
--   Scheduler: scheduler/pkg/plugin.go.
--   Tests: concrete inputs.
--
-- Names are the source's, with words joined by underscores; a Go method is a function that takes
-- the Outside record in place of its receiver. Where Go changes an object in place, the definition
-- returns the changed object: creating a StatefulSet returns the custom resource too, since
-- addAntiAffinity changes it, and scaling down returns both objects. A manifest is a value, although
-- its PodAntiAffinity is the custom resource's own: it is the value that is sent, since a manifest is
-- sent before the next one is built.
--
-- Bounds: numbers are natural numbers; an int32 is its bit pattern below 2^32, and ParseInt stops
-- at 2^63. Epochs, indices of pods and times are taken as not negative. The guards of the creations
-- are recursive on their number of tries, three as in the source, and Exec on its rounds, five as in the
-- source. Three loops without an end of their own run over what the outside gives them: loopCheck
-- over a number of rounds, newSlotTags over the tags that it draws, and a monitor over the lines that
-- it reads. The number of slots is a parameter of newSlotTags and newKVChecker, 16384 in the source.
-- All other loops run over a list. There is no other fuel but that of decimal printing, where a
-- number has at most as many digits as it counts.
--
-- Parameters: gzip with base64 and JSON (Codec, with the hypothesis that what was encoded is decoded
-- again), the decoding of base64 in a header, the comparison of resource quantities (reflexive),
-- the chain of gin (each handler runs after the one before, as none aborts), and for the checker
-- what the nodes answer, the limiter, the random numbers, the time and the order in which a map is
-- visited. Where a theorem speaks of a store, the nodes reply as Redis documents its commands, nobody
-- else writes the keys, and a range over a map visits its entries.
--
-- Not modelled: the texts of the shell scripts and formats, which are tokens; log messages; the
-- listeners and goroutines (of the checker: the three that check at once, and the start of the
-- monitors); timeouts; process wiring.
pub mod Prelude
pub mod Checker
pub mod Controllers
pub mod Scheduler
pub mod Tests
