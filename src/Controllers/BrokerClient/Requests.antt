-- ===== src/Controllers/BrokerClient/Requests.antt =====
-- controllers/broker_client.go: each call sends its one request, whatever the reply.
use undermoon_operator.Controllers.Io.{
  Outside, Result, Event, HttpRequest, HttpResponse, sent, request, lift,
}
use undermoon_operator.Controllers.Io.Keeps.{Sends, Sends-request, Sends-bind, Sends-lift}
use undermoon_operator.Controllers.BrokerClient.{call}

module _ {E : Type 0} (o : Outside E) where
  pub call-Sends :
      {A : Type 0} {P : Event → Type 0} (req : HttpRequest) (meaning : HttpResponse → Result A)
      → P (sent req)
      → Sends P (call o req meaning)
  unfolding call
  call-Sends {P = P} req meaning h =
      Sends-bind {P = P} (request (sent req) (o.http req)) (λ r. lift (meaning r))
        (Sends-request {P = P} (sent req) (o.http req) h) (λ r. Sends-lift {P = P} (meaning r))
