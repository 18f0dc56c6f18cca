-- ===== src/Tests/Outsides.antt =====
-- A server, brokers and coordinators that answer everything, and brokers that never answer.
use undermoon_operator.Prelude.{ℕ, suc, none, some, List, [], ◌∷◌, Bytes, codes}
use undermoon_operator.Controllers.Io.{
  Outside, World, ok, err, external_timeout, HttpRequest, get_config, get_epoch, get_proxies,
  get_names, get_info, Payload, addresses, epoch, info, nothing,
}
use undermoon_operator.Tests.Data.{
  sample_cr, sample_stateful_set, sample_service, sample_config_map, sample_secret, sample_info,
}

abbrev pub payload_of : HttpRequest → Payload
payload_of (get_config a) = addresses []
payload_of (get_epoch a) = epoch (some 3)
payload_of (get_proxies a) = addresses (codes "gone:5299" ∷ codes "a:5299" ∷ [])
payload_of (get_names a) = addresses (codes "mycluster" ∷ [])
payload_of (get_info a n) = info sample_info
payload_of _ = nothing

abbrev hosts : List Bytes
hosts = codes "h-0" ∷ codes "h-1" ∷ codes "h-2" ∷ codes "h-3" ∷ []

-- The environment is the clock.
abbrev pub server : Outside ℕ
server = record {
  get_undermoon = λ ns n e. (ok sample_cr, e);
  get_stateful_set = λ ns n e. (ok sample_stateful_set, e);
  create_stateful_set = λ s e. (ok s, e);
  update_stateful_set = λ s e. (ok s, e);
  get_service = λ ns n e. (ok sample_service, e);
  create_service = λ s e. (ok s, e);
  get_config_map = λ ns n e. (ok sample_config_map, e);
  create_config_map = λ c e. (ok c, e);
  update_config_map = λ c e. (ok c, e);
  get_secret = λ ns n e. (ok sample_secret, e);
  create_secret = λ s e. (ok s, e);
  get_subsets = λ ns n e. (ok (hosts ∷ []), e);
  update_status = λ cr e. (ok cr, e);
  patch_status = λ cr b e. (ok cr, e);
  set_controller_reference = λ cr n e. (ok tt, e);
  http = λ req e. (ok (record { status = 200; error_code = none; payload = payload_of req }), e);
  set_brokers = λ a b e. (ok tt, e);
  now = λ e. (ok e, suc e);
  password = λ e. (ok (codes "secret"), e);
}

abbrev pub silent_server : Outside ℕ
silent_server = record server { http = λ req e. (err external_timeout, e) }

abbrev pub start : ℕ → World ℕ
start e = record { env = e; log = [] }
