-- ===== src/Controllers/MetaController/Scaling.antt =====
-- controllers/meta_controller.go: when the brokers are told to scale the cluster.
use undermoon_operator.Prelude.{◌*◌, ◌≡◌, arith, Bytes, true, false, ◌∷◌}
use undermoon_operator.Controllers.Types.{Undermoon}
use undermoon_operator.Controllers.Io.{
  Outside, World, ok, err, sent, post_scale, delete_free_nodes, ClusterInfo, retry_reconciliation,
  ◌>>=◌,
}
use undermoon_operator.Controllers.BrokerClient as Client
use undermoon_operator.Controllers.BrokerClient.{scale_nodes_reply, remove_free_nodes_reply}
use undermoon_operator.Controllers.MetaController.{change_meta}

module _ {E : Type 0} (o : Outside E) (master : Bytes) (cr : Undermoon) (info : ClusterInfo)
    (w : World E) where
  -- While slots migrate, `changeMeta` sends nothing and asks for a retry.
  pub change_meta_migrating :
      info.is_migrating ≡ true → change_meta o master cr info w ≡ (err retry_reconciliation, w)
  unfolding change_meta ◌>>=◌
  change_meta_migrating h = rw h

  -- When `changeMeta` succeeds, no migration was reported, and it sent exactly two requests: first
  -- to scale the cluster to four nodes for each chunk, then to remove the free nodes.
  pub change_meta_ok :
      (change_meta o master cr info w).0 ≡ ok tt
      → (info.is_migrating ≡ false)
        × ((change_meta o master cr info w).1.log
            ≡ sent (delete_free_nodes master cr.spec.cluster_name)
              ∷ sent (post_scale master cr.spec.cluster_name (cr.spec.chunk_number * 4))
              ∷ w.log)
  unfolding change_meta ◌>>=◌ Client.scale_nodes Client.remove_free_nodes
  change_meta_ok h = ground arith
