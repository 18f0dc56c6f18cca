-- ===== src/Tests/Metadata.antt =====
-- controllers/meta_server.go and meta_controller.go: the metadata store with plain texts.
use undermoon_operator.Prelude.{
  ℕ, ◌≡◌, ◌≢◌, refl, arith, Option, none, some, List, [], ◌∷◌, Bytes, codes, has_byte, bytes_eq,
  false, length, sym,
}
use undermoon_operator.Controllers.Io.{Io, Result, ok, err, failure, pure, ◌>>=◌}
use undermoon_operator.Controllers.Io.Keeps.{AllEvents}
use undermoon_operator.Controllers.Broker.{broker_storage_name}
use undermoon_operator.Controllers.MetaStore.{
  extract_storage_name, ExternalStore, Codec, update_external_store, init_or_update_external_store,
}
use undermoon_operator.Controllers.MetaStore.Updates.{
  IsWriteOf, extract_storage_name-broker_storage_name, update_external_store-IsWriteOf,
}
use undermoon_operator.Controllers.MetaServer.{
  Context, reply, coded, code_invalid_basic_auth, credentials, handle_update_meta, update_route,
}
use undermoon_operator.Controllers.MetaServer.Routes.{named, update_route_unauthorized}
use undermoon_operator.Controllers.StorageController.{is_empty}
use undermoon_operator.Tests.Outsides.{server, start}

um_no_at : has_byte b'@' (codes "um") ≡ false
unfolding has_byte
um_no_at = refl

um_given : codes "um" ≢ []
um_given = ground arith

db_given : codes "db" ≢ []
db_given = ground arith

extract_storage_name-broker_storage_name_example :
    extract_storage_name (broker_storage_name (codes "um") (codes "db"))
    ≡ some (codes "um", codes "db")
extract_storage_name-broker_storage_name_example =
    extract_storage_name-broker_storage_name (codes "um") (codes "db") um_no_at um_given db_given

-- A store of at most one key without a value, written as the key.
abbrev print_keys : List (Bytes × Unit {0}) → Result Bytes
print_keys [] = ok []
print_keys (([], u) ∷ store) = err failure
print_keys ((c ∷ cs, u) ∷ []) = ok (c ∷ cs)
print_keys ((c ∷ cs, u) ∷ p ∷ store) = err failure

abbrev read_keys : Bytes → Result (List (Bytes × Unit {0}))
read_keys [] = ok []
read_keys (c ∷ cs) = ok ((c ∷ cs, tt) ∷ [])

abbrev plain_codec : Codec (Unit {0})
plain_codec = record { compress = ok; decompress = ok; marshal = print_keys; unmarshal = read_keys }

decompress-compress :
    (text packed : Bytes)
    → plain_codec.compress text ≡ ok packed
    → plain_codec.decompress packed ≡ ok text
decompress-compress text packed h = sym h

read_keys-print_keys :
    (store : List (Bytes × Unit {0})) (text : Bytes)
    → print_keys store ≡ ok text
    → read_keys text ≡ ok store
read_keys-print_keys [] [] h = refl
read_keys-print_keys [] (c ∷ cs) h = ground (arith, h)
read_keys-print_keys (([], u) ∷ store) text h = ground (arith, h)
read_keys-print_keys ((c ∷ cs, tt) ∷ []) text h = ground (arith, h)
read_keys-print_keys ((c ∷ cs, u) ∷ p ∷ store) text h = ground (arith, h)

abbrev new_store : ExternalStore (Unit {0})
new_store = record { version = codes "7"; store = (codes "k", tt) ∷ [] }

update_external_store-IsWriteOf_example :
    AllEvents
      (IsWriteOf plain_codec new_store)
      (update_external_store plain_codec server
        (codes "um")
        (codes "db")
        new_store
        (record { env = 3; log = [] })).1.log
update_external_store-IsWriteOf_example =
    update_external_store-IsWriteOf plain_codec server decompress-compress read_keys-print_keys
      new_store (codes "um") (codes "db") 3

-- A chain in which no handler aborts.
abbrev run_all :
    List (Context (Unit {0}) → Io ℕ (Context (Unit {0})))
    → Context (Unit {0})
    → Io ℕ (Context (Unit {0}))
run_all [] c = pure c
run_all (m ∷ ms) c = m c >>= run_all ms

abbrev no_decoding : Bytes → Option Bytes
no_decoding text = none

abbrev anonymous : Context (Unit {0})
anonymous = record {
  storage_name = codes "um@db";
  authorization = [];
  body = ok new_store;
  cr_name = none;
  namespace = none;
  replies = [];
}

anonymous_given : codes "um@db" ≢ []
anonymous_given = ground arith

anonymous_extracted : extract_storage_name (codes "um@db") ≡ some (codes "um", codes "db")
unfolding extract_storage_name
anonymous_extracted = refl

anonymous_credentials : credentials no_decoding [] ≡ none
unfolding credentials
anonymous_credentials = refl

update_route_unauthorized_example :
    run_all (update_route plain_codec server no_decoding) anonymous (start 3)
    ≡ handle_update_meta plain_codec server no_decoding
        (reply (coded 401 code_invalid_basic_auth) (named anonymous (codes "um") (codes "db")))
        (start 3)
update_route_unauthorized_example =
    update_route_unauthorized plain_codec server no_decoding run_all (λ c. refl) (λ m ms c. refl)
      anonymous (codes "um") (codes "db") anonymous_given anonymous_extracted (start 3)
      anonymous_credentials

-- The number of requests that change something.
anonymous_writes :
    length (run_all (update_route plain_codec server no_decoding) anonymous (start 3)).1.log ≡ 1
unfolding update_route ◌>>=◌ is_empty extract_storage_name init_or_update_external_store bytes_eq
anonymous_writes = refl
