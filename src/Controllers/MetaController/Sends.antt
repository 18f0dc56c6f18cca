-- ===== src/Controllers/MetaController/Sends.antt =====
-- controllers/meta_controller.go: what the change of the node number sends.
use undermoon_operator.Prelude.{Bytes, Option, none, some, Bool}
use undermoon_operator.Controllers.Types.{Undermoon}
use undermoon_operator.Controllers.Io.{
  Outside, Result, Error, HttpRequest, HttpResponse, ClusterInfo, Event, sent,
}
use undermoon_operator.Controllers.Io.Keeps.{Sends, sends_rules}
use undermoon_operator.Controllers.BrokerClient as Client
use undermoon_operator.Controllers.BrokerClient.{scale_nodes_reply, remove_free_nodes_reply}
use undermoon_operator.Controllers.BrokerClient.Requests.{call-Sends}
use undermoon_operator.Controllers.MetaController.{
  remove_nodes, after_scale_error, change_node_number, change_meta,
}

module _ {E : Type 0} (o : Outside E) {P : Event → Type 0}
    (http : (req : HttpRequest) → P (sent req)) where
  call_any-Sends :
      {A : Type 0} (req : HttpRequest) (meaning : HttpResponse → Result A)
      → Sends P (Client.call o req meaning)
  call_any-Sends req meaning = call-Sends o {P = P} req meaning (http req)

  remove_nodes-Sends :
      (master : Bytes) (cr : Undermoon) (retry : Bool) → Sends P (remove_nodes o master cr retry)
  unfolding remove_nodes Client.remove_free_nodes
  remove_nodes-Sends master cr retry = search (sends_rules, call_any-Sends)

  after_scale_error-Sends :
      (master : Bytes) (cr : Undermoon) (e : Option Error)
      → Sends P (after_scale_error o master cr e)
  unfolding after_scale_error
  after_scale_error-Sends master cr none = search remove_nodes-Sends
  after_scale_error-Sends master cr (some e) = search sends_rules

  change_node_number-Sends :
      (master : Bytes) (cr : Undermoon) → Sends P (change_node_number o master cr)
  unfolding change_node_number Client.scale_nodes
  change_node_number-Sends master cr =
      search (sends_rules, call_any-Sends, remove_nodes-Sends, after_scale_error-Sends)

  pub change_meta-Sends :
      (master : Bytes) (cr : Undermoon) (info : ClusterInfo)
      → Sends P (change_meta o master cr info)
  unfolding change_meta
  change_meta-Sends master cr info = search (sends_rules, change_node_number-Sends)
