-- ===== src/Scheduler.antt =====
-- scheduler/pkg/plugin.go: the filter that keeps the two pods of a shard on different nodes.
pub mod Apart
use undermoon_operator.Prelude.{
  ℕ, ◌/◌, Option, none, some, List, [], ◌∷◌, Bytes, codes, bytes_eq, Bool, true, false, not,
  if◌then◌else◌, ◌==◌, after_last, parse_int, Parsed, value, bad_syntax, out_of_range,
}

-- The part of a pod that the filter reads.
pub record Pod : Type 0 where
  pub name : Bytes
  pub namespace : Bytes
  pub labels : List (Bytes × Bytes)

-- `framework.NewStatus(framework.Success, "")` and the other two answers of the filter.
pub data Status : Type 0 where
  success error unschedulable : Status

-- `labels[key]`
unfoldable pub label : Bytes → List (Bytes × Bytes) → Option Bytes
label key [] = none
label key (l ∷ labels) = let rest = label key labels in if bytes_eq key l.0 then some l.1 else rest

abbrev pub service_key : Bytes
service_key = codes "undermoonService"

abbrev pub name_key : Bytes
name_key = codes "undermoonName"

abbrev pub storage_service : Bytes
storage_service = codes "storage"

-- `value, ok := ...; ok && value == expected`
unfoldable pub is_value : Option Bytes → Bytes → Bool
is_value none expected = false
is_value (some v) expected = bytes_eq v expected

-- `Atoi` gives no number where the digits are out of range.
unfoldable pub atoi : Parsed → Option ℕ
atoi (value n) = some n
atoi _ = none

unfoldable pub get_pod_index : Bytes → Option ℕ
unfolding atoi
get_pod_index pod_name = atoi (parse_int (after_last b'-' pod_name))

-- `podIndex/2 == index/2`; an existing pod without an index is passed over.
unfoldable pub is_shard : ℕ → Option ℕ → Bool
is_shard pod_index none = false
is_shard pod_index (some index) = pod_index / 2 == index / 2

-- The tests of the loop: whether an existing pod is in the way.
unfoldable pub in_the_way : Bytes → Bytes → ℕ → Pod → Bool
unfolding label is_value get_pod_index is_shard
in_the_way namespace undermoon_name pod_index existing =
    if not (bytes_eq namespace existing.namespace)
    then false
    else if not (is_value (label name_key existing.labels) undermoon_name)
    then false
    else if not (is_value (label service_key existing.labels) storage_service)
    then false
    else is_shard pod_index (get_pod_index existing.name)

unfoldable pub filter_loop : Bytes → Bytes → ℕ → List Pod → Status
unfolding in_the_way
filter_loop namespace undermoon_name pod_index [] = success
filter_loop namespace undermoon_name pod_index (p ∷ pods) =
    let rest = filter_loop namespace undermoon_name pod_index pods in
    if in_the_way namespace undermoon_name pod_index p then unschedulable else rest

-- From the index of the pod on.
unfoldable pub filter_storage : Pod → List Pod → Option ℕ → Option Bytes → Status
unfolding filter_loop
filter_storage pod node none undermoon_name = error
filter_storage pod node (some pod_index) none = error
filter_storage pod node (some pod_index) (some undermoon_name) =
    filter_loop pod.namespace undermoon_name pod_index node

-- `Filter`; `node` are the pods of the node.
unfoldable pub filter : Pod → List Pod → Status
unfolding filter_storage label is_value get_pod_index
filter pod node =
    if not (is_value (label service_key pod.labels) storage_service)
    then success
    else filter_storage pod node (get_pod_index pod.name) (label name_key pod.labels)
