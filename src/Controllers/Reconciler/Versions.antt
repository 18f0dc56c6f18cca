-- ===== src/Controllers/Reconciler/Versions.antt =====
-- controllers/undermoon_controller.go: what a whole run of the reconciler may send.
use undermoon_operator.Prelude.{ℕ, ◌≡◌, Bytes, Bool, false, List, []}
use undermoon_operator.Controllers.Types.{Undermoon, StatefulSet, Service}
use undermoon_operator.Controllers.Io.{
  Io, Outside, Event, updated_stateful_set, ClusterInfo, ServerProxyMeta,
}
use undermoon_operator.Controllers.Io.Keeps.{AllEvents, Sends, Sends-if, Sends-pure, sends_rules}
use undermoon_operator.Controllers.Resources.{
  ensure_stateful_set, ensure_service, create_meta, create_broker, create_coordinator,
}
use undermoon_operator.Controllers.Resources.Sends.{
  ensure_stateful_set-Sends, ensure_service-Sends, create_meta-Sends, create_broker-Sends,
  create_coordinator-Sends,
}
use undermoon_operator.Controllers.MetaController.{reconcile_meta}
use undermoon_operator.Controllers.MetaController.Registry.{reconcile_meta-Sends}
use undermoon_operator.Controllers.MetaController.Sends.{change_meta-Sends}
use undermoon_operator.Controllers.StorageController.{
  is_empty, create_storage, update_storage_stateful_set, storage_all_ready,
  storage_all_ready_and_stable, get_server_proxies, scale_down_storage_stateful_set,
  trigger_storage_rolling_update,
}
use undermoon_operator.Controllers.StorageController.Sends.{update_storage-Sends, scale_down-Sends}
use undermoon_operator.Controllers.BrokerController.{broker_ready, coordinator_ready}
use undermoon_operator.Controllers.BrokerController.Sends.{
  get_endpoints-Sends, broker_all_ready-Sends, coordinator_all_ready-Sends, reconcile_master-Sends,
  config_set_broker-Sends, update_stateful_set_helper-Sends, trigger_broker-Sends,
  trigger_coordinator-Sends,
}
use undermoon_operator.Controllers.Reconciler.{
  Config, UmResource, Outcome, or_retry, or_fail, create_resources, broker_and_coordinator_ready,
  update_storage_part, update_coordinator_part, trigger_rolling_update, finish_scaling,
  scale_when_stable, reconcile_cluster, reconcile_instance, reconcile,
}

-- An update of a StatefulSet carries a resource version.
abbrev pub HasVersion : Event → Type 0
HasVersion (updated_stateful_set s) = is_empty s.resource_version ≡ false
HasVersion _ = Unit

module _ {E : Type 0} (o : Outside E) where
  update_storage-HasVersion :
      (cr : Undermoon) (s : StatefulSet) → Sends HasVersion (update_storage_stateful_set o cr s)
  update_storage-HasVersion cr s = update_storage-Sends o {P = HasVersion} (λ c. tt) cr s (λ h. h)

  ensure_stateful_set-HasVersion :
      (build : Undermoon → StatefulSet × Undermoon) (cr : Undermoon)
      → Sends HasVersion (ensure_stateful_set o build cr)
  ensure_stateful_set-HasVersion build cr =
      ensure_stateful_set-Sends o {P = HasVersion} (λ s. tt) (λ s. tt) (λ s. tt) (λ s. tt) build cr

  ensure_service-HasVersion :
      (build : Undermoon → Service) (cr : Undermoon) → Sends HasVersion (ensure_service o build cr)
  ensure_service-HasVersion build cr =
      ensure_service-Sends o {P = HasVersion} (λ s. tt) (λ s. tt) (λ s. tt) (λ s. tt) build cr

  create_storage-HasVersion : (cr : Undermoon) → Sends HasVersion (create_storage o cr)
  unfolding create_storage
  create_storage-HasVersion cr =
      search
        (
          sends_rules, ensure_service-HasVersion, ensure_stateful_set-HasVersion,
          update_storage-HasVersion,
        )
        depth 10

  create_meta-HasVersion :
      (config : Config) (cr : Undermoon) → Sends HasVersion (create_meta o config.compress cr)
  create_meta-HasVersion config cr =
      create_meta-Sends o {P = HasVersion} (λ s. tt) (λ s. tt) (λ s. tt) (λ s. tt) config.compress
        cr

  create_broker-HasVersion :
      (ns : Bytes) (cr : Undermoon) → Sends HasVersion (create_broker o ns cr)
  create_broker-HasVersion ns cr =
      create_broker-Sends o {P = HasVersion} (λ s. tt) (λ s. tt) (λ s. tt) (λ s. tt) ns cr

  create_coordinator-HasVersion : (cr : Undermoon) → Sends HasVersion (create_coordinator o cr)
  create_coordinator-HasVersion cr =
      create_coordinator-Sends o {P = HasVersion} (λ s. tt) (λ s. tt) (λ s. tt) (λ s. tt) cr

  create_resources-HasVersion :
      (config : Config) (cr : Undermoon) → Sends HasVersion (create_resources o config cr)
  unfolding create_resources
  create_resources-HasVersion config cr = search (
    sends_rules, create_meta-HasVersion, create_broker-HasVersion, create_coordinator-HasVersion,
    create_storage-HasVersion,
  )

  ready-HasVersion :
      (config : Config) (r : UmResource)
      → Sends HasVersion (broker_and_coordinator_ready o config r)
  unfolding broker_and_coordinator_ready broker_ready coordinator_ready
  ready-HasVersion config r = search (sends_rules, get_endpoints-Sends)

  storage_all_ready-HasVersion :
      (svc : Service) (cr : Undermoon) → Sends HasVersion (storage_all_ready o svc cr)
  unfolding storage_all_ready
  storage_all_ready-HasVersion svc cr = search (sends_rules, get_endpoints-Sends)

  stable-HasVersion :
      (svc : Service) (s : StatefulSet) (cr : Undermoon)
      → Sends HasVersion (storage_all_ready_and_stable o svc s cr)
  unfolding storage_all_ready_and_stable
  stable-HasVersion svc s cr = search (sends_rules, storage_all_ready-HasVersion)

  proxies-HasVersion :
      (svc : Service) (cr : Undermoon) → Sends HasVersion (get_server_proxies o svc cr)
  unfolding get_server_proxies
  proxies-HasVersion svc cr = search (sends_rules, get_endpoints-Sends)

  trigger_storage-HasVersion :
      (cr : Undermoon) (s : StatefulSet) (svc : Service)
      → Sends HasVersion (trigger_storage_rolling_update o cr s svc)
  unfolding trigger_storage_rolling_update
  trigger_storage-HasVersion cr s svc = search (
    sends_rules,
    update_stateful_set_helper-Sends o {P = HasVersion} (λ s h. h),
    storage_all_ready-HasVersion,
  )

  module _ (config : Config) where
    storage_part-HasVersion :
        (r : UmResource) (s : StatefulSet) (cr : Undermoon)
        → Sends HasVersion (update_storage_part o config r s cr)
    unfolding update_storage_part
    storage_part-HasVersion r s cr =
        search (sends_rules, trigger_storage-HasVersion, stable-HasVersion)

    coordinator_part-HasVersion :
        (r : UmResource) (s : StatefulSet) (cr : Undermoon)
        → Sends HasVersion (update_coordinator_part o config r s cr)
    unfolding update_coordinator_part
    coordinator_part-HasVersion r s cr = search (
      sends_rules,
      trigger_coordinator-Sends o {P = HasVersion} (λ s h. h),
      coordinator_all_ready-Sends,
      storage_part-HasVersion,
    )

    trigger-HasVersion :
        (r : UmResource) (s : StatefulSet) (cr : Undermoon)
        → Sends HasVersion (trigger_rolling_update o config r s cr)
    unfolding trigger_rolling_update
    trigger-HasVersion r s cr = search (
      sends_rules,
      trigger_broker-Sends o {P = HasVersion} (λ s h. h),
      broker_all_ready-Sends,
      coordinator_part-HasVersion,
    )

    or_retry-HasVersion :
        {A : Type 0} (n : ℕ) (m : Io E A) (f : A → Io E Outcome)
        → Sends HasVersion m
        → ((a : A) → Sends HasVersion (f a))
        → Sends HasVersion (or_retry o config n m f)
    unfolding or_retry
    or_retry-HasVersion n m f hm hf = search (sends_rules, hm, hf)

    or_fail-HasVersion :
        {A : Type 0} (m : Io E A) (f : A → Io E Outcome)
        → Sends HasVersion m
        → ((a : A) → Sends HasVersion (f a))
        → Sends HasVersion (or_fail o config m f)
    unfolding or_fail
    or_fail-HasVersion m f hm hf = search (sends_rules, hm, hf)

    meta-HasVersion :
        (master : Bytes) (rs : List Bytes) (ps : List ServerProxyMeta) (cr : Undermoon)
        (ready : Bool)
        → Sends HasVersion (reconcile_meta o master rs ps cr ready)
    meta-HasVersion master rs ps cr ready =
        reconcile_meta-Sends o {P = HasVersion} (λ req h. tt) master ps cr (λ a h. tt) rs ready

    scale_down-HasVersion :
        (cr : Undermoon) (s : StatefulSet) (info : ClusterInfo)
        → Sends HasVersion (scale_down_storage_stateful_set o cr s info)
    scale_down-HasVersion cr s info =
        scale_down-Sends o {P = HasVersion} (λ c. tt) cr s info (λ hs hw h. h)

    finish-HasVersion :
        (r : UmResource) (cr : Undermoon) (master : Bytes) (rs : List Bytes) (ready : Bool)
        → Sends HasVersion (finish_scaling o config r cr master rs ready)
    unfolding finish_scaling
    finish-HasVersion r cr master rs ready = search (
      or_retry-HasVersion, meta-HasVersion, scale_down-HasVersion, trigger-HasVersion, Sends-pure,
    )

    scale-HasVersion :
        (r : UmResource) (cr : Undermoon) (master : Bytes) (rs : List Bytes) (ready : Bool)
        (info : ClusterInfo)
        → Sends HasVersion (scale_when_stable o config r cr master rs ready info)
    unfolding scale_when_stable
    scale-HasVersion r cr master rs ready info = search (
      or_retry-HasVersion,
      or_fail-HasVersion,
      stable-HasVersion,
      Sends-if,
      Sends-pure,
      change_meta-Sends o {P = HasVersion} (λ req. tt),
      finish-HasVersion,
    )

    cluster-HasVersion : (r : UmResource) → Sends HasVersion (reconcile_cluster o config r)
    unfolding reconcile_cluster
    cluster-HasVersion r =
        search
          (
            or_retry-HasVersion,
            or_fail-HasVersion,
            reconcile_master-Sends o {P = HasVersion} (λ req. tt) (λ b. tt),
            config_set_broker-Sends o {P = HasVersion} (λ a b. tt),
            proxies-HasVersion,
            storage_all_ready-HasVersion,
            meta-HasVersion,
            scale-HasVersion,
          )
          depth 14

    instance-HasVersion : (cr : Undermoon) → Sends HasVersion (reconcile_instance o config cr)
    unfolding reconcile_instance
    instance-HasVersion cr =
        search
          (
            or_retry-HasVersion, or_fail-HasVersion, create_resources-HasVersion, ready-HasVersion,
            Sends-if, Sends-pure, cluster-HasVersion,
          )
          depth 10

    whole-HasVersion :
        (namespace name : Bytes) → Sends HasVersion (reconcile o config namespace name)
    unfolding reconcile
    whole-HasVersion namespace name = search (sends_rules, instance-HasVersion)

    -- Whatever the outside answers, a whole run of the reconciler updates a StatefulSet only with a
    -- resource version, so that the server can refuse an update of an object that has changed.
    pub reconcile-HasVersion :
        (namespace name : Bytes) (e : E)
        → AllEvents HasVersion
            (reconcile o config namespace name (record { env = e; log = [] })).1.log
    reconcile-HasVersion namespace name e =
        (whole-HasVersion namespace name).at (record { env = e; log = [] }) tt
