-- ===== src/Controllers/MetaStore/Updates.antt =====
-- controllers/meta_controller.go and meta.go: storage names, and the versions of what is written.
use undermoon_operator.Prelude.{
  ℕ, ◌≡◌, ◌≢◌, refl, sym, ap, ◌∙◌, arith, some, List, [], ◌∷◌, ◌++◌, Bytes, bytes_eq, bytes_eq_self,
  eq_of_bytes_eq, has_byte, false, not, if◌then◌else◌,
}
use undermoon_operator.Controllers.Types.{ConfigMap, Labels}
use undermoon_operator.Controllers.Io.{
  Io, Outside, Result, ok, err, Event, external_store_conflict, pure, raise, request, lift, ◌>>=◌,
  updated_config_map,
}
use undermoon_operator.Controllers.Io.Keeps.{
  AllEvents, Sends, Sends-request, Sends-bind, Sends-handle, Sends-if, Sends-pure, Sends-raise,
  Sends-lift-bind, sends_rules,
}
use undermoon_operator.Controllers.Broker.{broker_storage_name}
use undermoon_operator.Controllers.Resources.{is_conflict}
use undermoon_operator.Controllers.StorageController.{is_empty}
use undermoon_operator.Controllers.MetaStore.{
  split_first, both_given, extract_storage_name, meta_store_key, lookup, put, assign, ExternalStore,
  Codec, decode_text, decode_store, with_version, read_store, get_config_map, put_config_map,
  write_store, update_external_store,
}

split_first-append :
    (c : ℕ) (xs ys : Bytes) → has_byte c xs ≡ false → split_first c (xs ++ c ∷ ys) ≡ some (xs, ys)
unfolding split_first has_byte
split_first-append c [] ys h = ground arith
split_first-append c (x ∷ xs) ys h = ground (arith, split_first-append c xs ys)

-- A storage name made of a name without an at sign and a namespace, neither of them empty, gives
-- the two back.
pub extract_storage_name-broker_storage_name :
    (undermoon_name namespace : Bytes)
    → has_byte b'@' undermoon_name ≡ false
    → undermoon_name ≢ []
    → namespace ≢ []
    → extract_storage_name (broker_storage_name undermoon_name namespace)
      ≡ some (undermoon_name, namespace)
unfolding extract_storage_name broker_storage_name both_given is_empty
extract_storage_name-broker_storage_name undermoon_name namespace h n m =
    ground (arith, split_first-append b'@' undermoon_name namespace h)

lookup-put : (key v : Bytes) (contents : Labels) → lookup key (put key v contents) ≡ some v
unfolding lookup put
lookup-put key v [] = ground (arith, bytes_eq_self key)
lookup-put key v (p ∷ contents) = ground (arith, bytes_eq_self key, lookup-put key v contents)

lookup-assign :
    (key v : Bytes) (contents contents' : Labels)
    → assign key v contents ≡ ok contents'
    → lookup key contents' ≡ some v
unfolding assign
lookup-assign key v [] contents' h = ground (arith, h)
lookup-assign key v (p ∷ contents) contents' h =
    ap (lookup key) (sym (ok_inj h)) ∙ lookup-put key v (p ∷ contents)
  where
    ok_inj : {a b : Labels} → ok a ≡ ok b → a ≡ b
    ok_inj h = ground (arith, h)

-- An update of a ConfigMap that has the given resource version, and under the key of the store a
-- text that is read back as the given store.
abbrev pub IsWriteOf : {J : Type 0} → Codec J → ExternalStore J → Event → Type 0
IsWriteOf codec s (updated_config_map c) = read_store codec c ≡ ok s
IsWriteOf codec s _ = Unit

module _ {J E : Type 0} (codec : Codec J) (o : Outside E) where
  read-write :
      (decompress-compress : (text packed : Bytes)
        → codec.compress text ≡ ok packed
        → codec.decompress packed ≡ ok text)
      (unmarshal-marshal : (store : List (Bytes × J)) (text : Bytes)
        → codec.marshal store ≡ ok text
        → codec.unmarshal text ≡ ok store)
      (c : ConfigMap) (s : ExternalStore J) (text packed : Bytes) (contents : Labels)
      → c.resource_version ≡ s.version
      → codec.marshal s.store ≡ ok text
      → codec.compress text ≡ ok packed
      → assign meta_store_key packed c.contents ≡ ok contents
      → read_store codec (record c { contents = contents }) ≡ ok s
  unfolding read_store decode_store decode_text with_version
  read-write dc um c s text packed contents hv hm hc ha = ground (
    arith,
    hv,
    lookup-assign meta_store_key packed c.contents contents ha,
    dc text packed hc,
    um s.store text hm,
  )

  put-Sends :
      (s : ExternalStore J) (c : ConfigMap)
      → read_store codec c ≡ ok s
      → Sends (IsWriteOf codec s) (put_config_map codec o c)
  unfolding put_config_map
  put-Sends s c h =
      Sends-handle (request (updated_config_map c) (o.update_config_map c)) (λ _. pure tt)
        (λ e. raise (if is_conflict e then external_store_conflict else e))
        (Sends-request {P = IsWriteOf codec s} (updated_config_map c) (o.update_config_map c) h)
        (λ _. Sends-pure {P = IsWriteOf codec s} tt)
        (λ e.
          Sends-raise {P = IsWriteOf codec s}
            (if is_conflict e then external_store_conflict else e))

  module _
      (decompress-compress : (text packed : Bytes)
        → codec.compress text ≡ ok packed
        → codec.decompress packed ≡ ok text)
      (unmarshal-marshal : (store : List (Bytes × J)) (text : Bytes)
        → codec.marshal store ≡ ok text
        → codec.unmarshal text ≡ ok store)
      (s : ExternalStore J) where
    write_store-Sends :
        (c : ConfigMap) (m : Result Bytes)
        → c.resource_version ≡ s.version
        → codec.marshal s.store ≡ m
        → Sends (IsWriteOf codec s) (write_store codec o c m)
    unfolding write_store
    write_store-Sends c (err e) hv hm = Sends-pure {P = IsWriteOf codec s} tt
    write_store-Sends c (ok text) hv hm =
        let save : Labels → Io E (Unit {0}) =
          λ contents. put_config_map codec o (record c { contents = contents }) in
        Sends-lift-bind (codec.compress text)
          (λ packed. lift (assign meta_store_key packed c.contents) >>= save)
          (λ packed hc.
            Sends-lift-bind (assign meta_store_key packed c.contents) save (λ contents ha.
              put-Sends s (record c { contents = contents })
                (read-write decompress-compress unmarshal-marshal c s text packed contents hv hm hc
                  ha)))

    get-Sends :
        (undermoon_name namespace : Bytes)
        → Sends (IsWriteOf codec s) (get_config_map codec o undermoon_name namespace)
    unfolding get_config_map
    get-Sends undermoon_name namespace = search sends_rules

    update-Sends :
        (undermoon_name namespace : Bytes)
        → Sends (IsWriteOf codec s) (update_external_store codec o undermoon_name namespace s)
    unfolding update_external_store
    update-Sends undermoon_name namespace =
        let next : ConfigMap → Io E (Unit {0}) = λ c.
          if not (bytes_eq c.resource_version s.version)
          then raise external_store_conflict
          else write_store codec o c (codec.marshal s.store) in
        Sends-bind (get_config_map codec o undermoon_name namespace) next
          (get-Sends undermoon_name namespace)
          (λ c.
            Sends-if (not (bytes_eq c.resource_version s.version)) (raise external_store_conflict)
              (write_store codec o c (codec.marshal s.store))
              (λ _. Sends-raise {P = IsWriteOf codec s} external_store_conflict)
              (λ same.
                write_store-Sends c (codec.marshal s.store)
                  (eq_of_bytes_eq c.resource_version s.version (ground (arith, same))) refl))

    -- If compressing and marshalling can be undone, then whatever the server answers, each update of
    -- a ConfigMap that `updateExternalStore` sends carries the resource version that the broker
    -- asked for, and reads back as the store that the broker gave.
    pub update_external_store-IsWriteOf :
        (undermoon_name namespace : Bytes) (e : E)
        → AllEvents
            (IsWriteOf codec s)
            (update_external_store codec o undermoon_name namespace s
              (record { env = e; log = [] })).1.log
    update_external_store-IsWriteOf undermoon_name namespace e =
        (update-Sends undermoon_name namespace).at (record { env = e; log = [] }) tt
