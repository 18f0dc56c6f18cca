-- ===== src/Checker/Client/Methods.antt =====
-- checker/pkg/client.go: the commands of the client.
use undermoon_operator.Prelude.{Option, none, some, List, Bytes, [], Bool}
use undermoon_operator.Checker.Client.{
  get, set, del, mget, mset, lua_mget, lua_mset, text, texts, CheckError, panic, redis, nil_reply,
  Result, ok, err, ClusterClient, Nodes, Outcome, exec,
}

module _ {E : Type 0} where
  -- `v.(string)`
  unfoldable pub got : Outcome E → (Result (Option Bytes) × Bytes) × ClusterClient E
  got ((err (redis nil_reply), a), s) = ((ok none, a), s)
  got ((err y, a), s) = ((err y, a), s)
  got ((ok (text v), a), s) = ((ok (some v), a), s)
  got ((ok r, a), s) = ((err panic, []), s)

  -- `vs.([]interface{})`, and `v.(string)` of each that is not nil
  unfoldable pub got_all : Outcome E → (Result (List (Option Bytes)) × Bytes) × ClusterClient E
  got_all ((err y, a), s) = ((err y, a), s)
  got_all ((ok (texts vs), a), s) = ((ok vs, a), s)
  got_all ((ok r, a), s) = ((err panic, []), s)

  -- The error, if any, and the address.
  unfoldable pub error_of : Outcome E → (Option CheckError × Bytes) × ClusterClient E
  error_of ((err y, a), s) = ((some y, a), s)
  error_of ((ok r, a), s) = ((none, a), s)

module _ {E : Type 0} (nodes : Nodes E) where
  abbrev pub Writing : Type 0
  Writing = ClusterClient E → (Option CheckError × Bytes) × ClusterClient E

  unfoldable pub client_get :
      Bytes → ClusterClient E → (Result (Option Bytes) × Bytes) × ClusterClient E
  unfolding got exec
  client_get key s = got (exec nodes (get key) s)

  unfoldable pub client_set : Bytes → Bytes → Writing
  unfolding error_of exec
  client_set key value s = error_of (exec nodes (set key value) s)

  unfoldable pub client_del : List Bytes → Writing
  unfolding error_of exec
  client_del keys s = error_of (exec nodes (del keys) s)

  unfoldable pub client_mget :
      List Bytes → ClusterClient E → (Result (List (Option Bytes)) × Bytes) × ClusterClient E
  unfolding got_all exec
  client_mget keys s = got_all (exec nodes (mget keys) s)

  unfoldable pub client_mset : List Bytes → Writing
  unfolding error_of exec
  client_mset values s = error_of (exec nodes (mset values) s)

  unfoldable pub client_lua_mget :
      List Bytes → ClusterClient E → (Result (List (Option Bytes)) × Bytes) × ClusterClient E
  unfolding got_all exec
  client_lua_mget keys s = got_all (exec nodes (lua_mget keys) s)

  unfoldable pub client_lua_mset : List Bytes → List Bytes → Writing
  unfolding error_of exec
  client_lua_mset keys values s = error_of (exec nodes (lua_mset keys values) s)

-- `NewCheckerClusterClient`, in an outside; the timeouts are the library's.
abbrev pub new_checker_cluster_client : {E : Type 0} → Bytes → Bool → E → ClusterClient E
new_checker_cluster_client startup_node debug env = record {
  startup_node = startup_node;
  debug = debug;
  pool = [];
  env = env;
  sent = [];
}
