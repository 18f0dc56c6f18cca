-- ===== src/Controllers.antt =====
-- The operator of controllers/: manifests, the broker's client, the controllers, the reconciler.
pub mod Types
pub mod Io
pub mod Utils
pub mod Broker
pub mod Coordinator
pub mod CoordinatorClient
pub mod Storage
pub mod Unchanged
pub mod BrokerClient
pub mod MetaController
pub mod Resources
pub mod StorageController
pub mod BrokerController
pub mod MetaStore
pub mod MetaServer
pub mod Reconciler
