-- ===== src/Controllers/MetaStore.antt =====
-- controllers/meta_controller.go and meta.go: the brokers' metadata, kept in a ConfigMap.
pub mod Updates
use undermoon_operator.Prelude.{
  ℕ, Option, none, some, List, [], ◌∷◌, ◌++◌, Bytes, codes, bytes_eq, Bool, true, false, not,
  if◌then◌else◌, ◌==◌,
}
use undermoon_operator.Controllers.Types.{ConfigMap, Secret, Labels}
use undermoon_operator.Controllers.Io.{
  Io, Outside, Result, ok, err, Error, failure, panic, external_store_conflict, pure, raise, handle,
  ask, request, lift, ◌>>=◌, updated_config_map,
}
use undermoon_operator.Controllers.Broker.{meta_config_map_name, meta_secret_name}
use undermoon_operator.Controllers.Resources.{is_conflict, is_not_found}
use undermoon_operator.Controllers.StorageController.{is_empty}

-- `strings.SplitN(s, c, 2)`: the two parts, nothing if there is only one.
unfoldable pub split_first : ℕ → Bytes → Option (Bytes × Bytes)
split_first c [] = none
split_first c (x ∷ xs) =
    let rest = split_first c xs in
    if x == c then some ([], xs) else elim rest [ none ↦ none | some p ↦ some (x ∷ p.0, p.1) ]

unfoldable pub both_given : Option (Bytes × Bytes) → Option (Bytes × Bytes)
unfolding is_empty
both_given none = none
both_given (some p) = if is_empty p.0 then none else if is_empty p.1 then none else some p

unfoldable pub extract_storage_name : Bytes → Option (Bytes × Bytes)
unfolding split_first both_given
extract_storage_name name = both_given (split_first b'@' name)

abbrev pub meta_store_key : Bytes
meta_store_key = codes "broker_meta_store"

abbrev pub meta_password_key : Bytes
meta_password_key = codes "broker_meta_password"

-- `m[key]` with its second result.
unfoldable pub lookup : Bytes → Labels → Option Bytes
lookup key [] = none
lookup key (p ∷ contents) =
    let rest = lookup key contents in if bytes_eq key p.0 then some p.1 else rest

unfoldable pub put : Bytes → Bytes → Labels → Labels
put key v [] = (key, v) ∷ []
put key v (p ∷ contents) =
    let rest = put key v contents in if bytes_eq key p.0 then (key, v) ∷ contents else p ∷ rest

-- The assignment to `configmap.Data`, which is nil if the server's object has no data.
unfoldable pub assign : Bytes → Bytes → Labels → Result Labels
unfolding put
assign key v [] = err panic
assign key v (p ∷ contents) = ok (put key v (p ∷ contents))

-- `externalStore`; `J` are the values of a JSON object.
pub record ExternalStore (J : Type 0) : Type 0 where
  pub version : Bytes
  pub store : List (Bytes × J)

-- `compressString`, `decompressString`, and the JSON of a store.
pub record Codec (J : Type 0) : Type 0 where
  pub compress : Bytes → Result Bytes
  pub decompress : Bytes → Result Bytes
  pub marshal : List (Bytes × J) → Result Bytes
  pub unmarshal : Bytes → Result (List (Bytes × J))

module _ {J : Type 0} (codec : Codec J) where
  unfoldable pub decode_text : Result Bytes → Result (List (Bytes × J))
  decode_text (err e) = err e
  decode_text (ok text) = codec.unmarshal text

  unfoldable pub decode_store : Option Bytes → Result (List (Bytes × J))
  unfolding decode_text
  decode_store none = err failure
  decode_store (some d) = decode_text (codec.decompress d)

  unfoldable pub with_version : Bytes → Result (List (Bytes × J)) → Result (ExternalStore J)
  with_version version (err e) = err e
  with_version version (ok store) = ok (record { version = version; store = store })

  -- What `getExternalStore` makes of the ConfigMap.
  unfoldable pub read_store : ConfigMap → Result (ExternalStore J)
  unfolding decode_store with_version lookup
  read_store c = with_version c.resource_version (decode_store (lookup meta_store_key c.contents))

  module _ {E : Type 0} (o : Outside E) where
    -- `getConfigMap`
    unfoldable pub get_config_map : Bytes → Bytes → Io E ConfigMap
    get_config_map undermoon_name namespace =
        ask (o.get_config_map namespace (meta_config_map_name undermoon_name))

    unfoldable pub get_external_store : Bytes → Bytes → Io E (ExternalStore J)
    unfolding get_config_map read_store
    get_external_store undermoon_name namespace =
        get_config_map undermoon_name namespace >>= λ c. lift (read_store c)

    unfoldable pub put_config_map : ConfigMap → Io E (Unit {0})
    put_config_map c =
        handle (request (updated_config_map c) (o.update_config_map c)) (λ _. pure tt)
          (λ e. raise (if is_conflict e then external_store_conflict else e))

    -- From `json.Marshal` on: its error ends the update without one.
    unfoldable pub write_store : ConfigMap → Result Bytes → Io E (Unit {0})
    unfolding assign put_config_map
    write_store c (err e) = pure tt
    write_store c (ok text) = lift (codec.compress text) >>= λ packed.
        lift (assign meta_store_key packed c.contents) >>= λ contents.
        put_config_map (record c { contents = contents })

    unfoldable pub update_external_store : Bytes → Bytes → ExternalStore J → Io E (Unit {0})
    unfolding get_config_map write_store
    update_external_store undermoon_name namespace s =
        get_config_map undermoon_name namespace >>= λ c.
        if not (bytes_eq c.resource_version s.version)
        then raise external_store_conflict
        else write_store c (codec.marshal s.store)

    unfoldable pub is_empty_store : List (Bytes × J) → Bool
    is_empty_store [] = true
    is_empty_store (p ∷ store) = false

    unfoldable pub init_external_store : Bytes → Bytes → List (Bytes × J) → Io E (Unit {0})
    unfolding get_external_store is_empty_store update_external_store
    init_external_store undermoon_name namespace store =
        get_external_store undermoon_name namespace >>= λ current.
        if not (is_empty_store current.store)
        then pure tt
        else update_external_store undermoon_name namespace (record current { store = store })

    unfoldable pub init_or_update_external_store : Bytes → Bytes → ExternalStore J → Io E (Unit {0})
    unfolding init_external_store update_external_store
    init_or_update_external_store undermoon_name namespace s =
        if is_empty s.version
        then init_external_store undermoon_name namespace s.store
        else update_external_store undermoon_name namespace s

module _ {E : Type 0} (o : Outside E) where
  unfoldable pub password_is : Option Bytes → Bytes → Result Bool
  password_is none password = err failure
  password_is (some secret_password) password = ok (bytes_eq secret_password password)

  unfoldable pub check_meta_secret : Bytes → Bytes → Bytes → Io E Bool
  unfolding password_is lookup
  check_meta_secret undermoon_name namespace password =
      handle (ask (o.get_secret namespace (meta_secret_name undermoon_name)))
        (λ s. lift (password_is (lookup meta_password_key s.contents) password))
        (λ e. if is_not_found e then pure false else raise e)
