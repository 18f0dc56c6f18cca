-- ===== src/Controllers/MetaController/Registry.antt =====
-- controllers/meta_controller.go: which server proxies the brokers are told to forget.
use undermoon_operator.Prelude.{
  ◌≡◌, refl, arith, Bytes, Bool-cases, inl, inr, Bool, false, if◌then◌else◌, List, [], ◌∷◌, ◌++◌,
}
use undermoon_operator.Controllers.Types.{Undermoon}
use undermoon_operator.Controllers.Io.{
  Io, Outside, Result, Event, HttpRequest, HttpResponse, sent, delete_proxy, put_config, post_proxy,
  get_proxies, ServerProxyMeta, is_retry, handle, raise,
}
use undermoon_operator.Controllers.Io.Keeps.{
  Sends, Sends-then, Sends-handle, Sends-if, Sends-raise, Sends-bind, AllEvents, sends_rules,
}
use undermoon_operator.Controllers.Utils.Laws.{All}
use undermoon_operator.Controllers.BrokerClient as Client
use undermoon_operator.Controllers.BrokerClient.{
  set_broker_replicas_reply, register_reply, deregister_reply, server_proxies_reply,
}
use undermoon_operator.Controllers.BrokerClient.Requests.{call-Sends}
use undermoon_operator.Controllers.Storage.{gen_storage_stateful_set_addrs}
use undermoon_operator.Controllers.MetaController.{
  member, keep_set, delete_list, proxy_addresses, register_server_proxies, deregister_loop,
  deregister_server_proxies, reconcile_server_proxy_registry, set_replicas_loop,
  set_broker_replicas, create_cluster, change_cluster_config, when_storage_ready, reconcile_meta,
}

All-map : (P Q : Bytes → Type 0) (xs : List Bytes) → ((a : Bytes) → P a → Q a) → All P xs → All Q xs
All-map P Q [] f h = tt
All-map P Q (x ∷ xs) f h = (f x h.0, All-map P Q xs f h.1)

delete_list-All :
    (keep existing : List Bytes) → All (λ a. member a keep ≡ false) (delete_list keep existing)
unfolding delete_list
delete_list-All keep [] = tt
delete_list-All keep (x ∷ existing) = elim (Bool-cases (member x keep)) [
  | inl kept ↦ rw kept (delete_list-All keep existing)
  | inr gone ↦ rw gone (gone, delete_list-All keep existing)
]

-- Any request but that to deregister a proxy.
abbrev pub IsOther : HttpRequest → Type 0
IsOther (delete_proxy address proxy) = ⊥
IsOther _ = Unit

-- A call of a loop that goes on after any error but the one that asks for a retry.
unless_retry-Sends :
    {E : Type 0} {P : Event → Type 0} (m rest : Io E (Unit {0}))
    → Sends P m
    → Sends P rest
    → Sends P (handle m (λ _. rest) (λ e. if is_retry e then raise e else rest))
unless_retry-Sends {P = P} m rest hm hr =
    Sends-handle m (λ _. rest) (λ e. if is_retry e then raise e else rest) hm (λ _. hr)
      (λ e. Sends-if (is_retry e) (raise e) rest (λ _. Sends-raise {P = P} e) (λ _. hr))

module _ {E : Type 0} (o : Outside E) {P : Event → Type 0}
    (other : (req : HttpRequest) → IsOther req → P (sent req)) where
  other-Sends :
      {A : Type 0} (req : HttpRequest) (meaning : HttpResponse → Result A)
      → IsOther req
      → Sends P (Client.call o req meaning)
  other-Sends req meaning h = call-Sends o {P = P} req meaning (other req h)

  set_replicas_loop-Sends : (rs : List Bytes) → Sends P (set_replicas_loop o rs)
  unfolding set_replicas_loop Client.set_broker_replicas
  set_replicas_loop-Sends [] = search sends_rules
  set_replicas_loop-Sends (r ∷ rs) =
      Sends-then (Client.set_broker_replicas o r []) (set_replicas_loop o rs)
        (other-Sends (put_config r []) set_broker_replicas_reply tt) (set_replicas_loop-Sends rs)

  set_broker_replicas-Sends :
      (master : Bytes) (rs : List Bytes) → Sends P (set_broker_replicas o master rs)
  unfolding set_broker_replicas Client.set_broker_replicas
  set_broker_replicas-Sends master rs = search (sends_rules, other-Sends, set_replicas_loop-Sends)

  register-Sends :
      (master : Bytes) (ps : List ServerProxyMeta) → Sends P (register_server_proxies o master ps)
  unfolding register_server_proxies Client.register_server_proxy
  register-Sends master [] = search sends_rules
  register-Sends master (p ∷ ps) =
      unless_retry-Sends (Client.register_server_proxy o master p)
        (register_server_proxies o master ps) (other-Sends (post_proxy master p) register_reply tt)
        (register-Sends master ps)

  create_cluster-Sends : (master : Bytes) (cr : Undermoon) → Sends P (create_cluster o master cr)
  unfolding create_cluster Client.create_cluster Client.cluster_exists
  create_cluster-Sends master cr = search (sends_rules, other-Sends)

  change_cluster_config-Sends :
      (master : Bytes) (cr : Undermoon) → Sends P (change_cluster_config o master cr)
  unfolding change_cluster_config Client.change_cluster_config
  change_cluster_config-Sends master cr = search (sends_rules, other-Sends)

  when_storage_ready-Sends :
      (master : Bytes) (cr : Undermoon) (ready : Bool)
      → Sends P (when_storage_ready o master cr ready)
  unfolding when_storage_ready Client.get_cluster_info
  when_storage_ready-Sends master cr ready =
      search (sends_rules, other-Sends, create_cluster-Sends, change_cluster_config-Sends)

  deregister_loop-Sends :
      (master : Bytes) (addrs : List Bytes)
      → All (λ a. P (sent (delete_proxy master a))) addrs
      → Sends P (deregister_loop o master addrs)
  unfolding deregister_loop Client.deregister_server_proxy
  deregister_loop-Sends master [] h = search sends_rules
  deregister_loop-Sends master (a ∷ addrs) h =
      unless_retry-Sends (Client.deregister_server_proxy o master a)
        (deregister_loop o master addrs)
        (call-Sends o {P = P} (delete_proxy master a) deregister_reply h.0)
        (deregister_loop-Sends master addrs h.1)

  module _ (master : Bytes) (ps : List ServerProxyMeta) (cr : Undermoon)
      (gone : (a : Bytes)
        → member a (keep_set cr ps) ≡ false
        → P (sent (delete_proxy master a))) where
    deregister-Sends : Sends P (deregister_server_proxies o master ps cr)
    unfolding deregister_server_proxies Client.get_server_proxies
    deregister-Sends =
        Sends-bind (Client.get_server_proxies o master)
          (λ existing. deregister_loop o master (delete_list (keep_set cr ps) existing))
          (other-Sends (get_proxies master) server_proxies_reply tt)
          (λ existing. deregister_loop-Sends master (delete_list (keep_set cr ps) existing) (
            All-map (λ a. member a (keep_set cr ps) ≡ false) (λ a. P (sent (delete_proxy master a)))
              (delete_list (keep_set cr ps) existing) gone
              (delete_list-All (keep_set cr ps) existing)))

    -- A property of requests that holds of all but deletions, and of deletions of proxies that are
    -- not to be kept, holds of all that `reconcileMeta` sends.
    pub reconcile_meta-Sends :
        (rs : List Bytes) (ready : Bool) → Sends P (reconcile_meta o master rs ps cr ready)
    unfolding reconcile_meta reconcile_server_proxy_registry
    reconcile_meta-Sends rs ready = search (
      sends_rules, set_broker_replicas-Sends, register-Sends, deregister-Sends,
      when_storage_ready-Sends,
    )

-- The pods of the specified chunks and the proxies that are listed are all kept.
member-append :
    (a : Bytes) (xs ys : List Bytes)
    → member a (xs ++ ys) ≡ false
    → (member a xs ≡ false) × (member a ys ≡ false)
unfolding member
member-append a [] ys h = (refl, h)
member-append a (x ∷ xs) ys h = ground (arith, member-append a xs ys)

-- A proxy that `reconcileMeta` has deregistered is neither one of the proxies that it was given,
-- nor the address of a pod of the specified chunks, whatever the broker answers.
abbrev pub SparesInUse : Undermoon → List ServerProxyMeta → Event → Type 0
SparesInUse cr ps (sent (delete_proxy address proxy)) =
    (member proxy (gen_storage_stateful_set_addrs cr) ≡ false)
    × (member proxy (proxy_addresses ps) ≡ false)
SparesInUse cr ps _ = Unit

other-SparesInUse :
    (cr : Undermoon) (ps : List ServerProxyMeta) (req : HttpRequest)
    → IsOther req
    → SparesInUse cr ps (sent req)
other-SparesInUse cr ps (delete_proxy a p) h = elim h [ ]
other-SparesInUse cr ps (put_config a rs) h = tt
other-SparesInUse cr ps _ h = tt

-- Started with an empty log, `reconcileMeta` deregisters no proxy that it was given and no pod of
-- the specified chunks, whatever the brokers answer.
pub reconcile_meta-SparesInUse :
    {E : Type 0} (o : Outside E) (master : Bytes) (rs : List Bytes) (ps : List ServerProxyMeta)
    (cr : Undermoon) (ready : Bool) (e : E)
    → AllEvents
        (SparesInUse cr ps)
        (reconcile_meta o master rs ps cr ready (record { env = e; log = [] })).1.log
unfolding keep_set
reconcile_meta-SparesInUse o master rs ps cr ready e =
    (reconcile_meta-Sends o {P = SparesInUse cr ps} (other-SparesInUse cr ps) master ps cr
        (λ a h. member-append a (gen_storage_stateful_set_addrs cr) (proxy_addresses ps) h) rs
        ready).at
      (record { env = e; log = [] }) tt
