-- ===== src/Tests/Pods.antt =====
-- scheduler/pkg: the filter on two pods of different shards.
use undermoon_operator.Prelude.{
  ◌≡◌, ◌↔◌, refl, [], ◌∷◌, Bytes, codes, bytes_eq, parse_int, after_last, has_byte,
}
use undermoon_operator.Scheduler.{Pod, success, unschedulable, filter, label, get_pod_index}
use undermoon_operator.Scheduler.Apart.{
  IsStorage, IsSpread, AllApart, Placed, empty, bound, Placed-IsSpread, filter-success_iff,
}

abbrev pod : Bytes → Pod
pod name = record {
  name = name;
  namespace = codes "db";
  labels = (codes "undermoonService", codes "storage") ∷ (codes "undermoonName", codes "um") ∷ [];
}

filter_other_shard : filter (pod (codes "um-stg-ss-2")) (pod (codes "um-stg-ss-1") ∷ []) ≡ success
unfolding filter bytes_eq parse_int after_last has_byte
filter_other_shard = refl

filter_same_shard :
    filter (pod (codes "um-stg-ss-0")) (pod (codes "um-stg-ss-1") ∷ []) ≡ unschedulable
unfolding filter bytes_eq parse_int after_last has_byte
filter_same_shard = refl

filter_first : filter (pod (codes "um-stg-ss-1")) [] ≡ success
unfolding filter bytes_eq parse_int after_last has_byte
filter_first = refl

two_pods-Placed : Placed (pod (codes "um-stg-ss-2") ∷ pod (codes "um-stg-ss-1") ∷ [])
two_pods-Placed =
    bound (pod (codes "um-stg-ss-2")) (pod (codes "um-stg-ss-1") ∷ [])
      (bound (pod (codes "um-stg-ss-1")) [] empty filter_first) filter_other_shard

Placed-IsSpread_example : IsSpread (pod (codes "um-stg-ss-2") ∷ pod (codes "um-stg-ss-1") ∷ [])
Placed-IsSpread_example =
    Placed-IsSpread (pod (codes "um-stg-ss-2") ∷ pod (codes "um-stg-ss-1") ∷ []) two_pods-Placed

second_pod-IsStorage : IsStorage (pod (codes "um-stg-ss-2")) (codes "db") (codes "um") 2
unfolding label get_pod_index bytes_eq parse_int after_last has_byte
second_pod-IsStorage = record {
  in_namespace = refl;
  service = refl;
  cluster = refl;
  numbered = refl;
}

filter-success_iff_example :
    (filter (pod (codes "um-stg-ss-2")) (pod (codes "um-stg-ss-1") ∷ []) ≡ success)
    ↔ AllApart (pod (codes "um-stg-ss-2")) (pod (codes "um-stg-ss-1") ∷ [])
filter-success_iff_example =
    filter-success_iff (pod (codes "um-stg-ss-2")) (pod (codes "um-stg-ss-1") ∷ []) (codes "db")
      (codes "um") 2 second_pod-IsStorage
