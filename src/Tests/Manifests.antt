-- ===== src/Tests/Manifests.antt =====
-- controllers/utils.go and the manifests, for the sample custom resource.
use undermoon_operator.Prelude.{
  ◌≡◌, ◌≢◌, ◌↔◌, refl, ap, bytes_eq_self, arith, some, [], ◌∷◌, ◌++◌, codes, bytes_eq, true, false,
  ◌==◌,
}
use undermoon_operator.Controllers.Types.{Opaque, EnvVar}
use undermoon_operator.Controllers.Utils.{env_var_list_need_update, last_of_name, from_field}
use undermoon_operator.Controllers.Utils.Laws.{
  All, IsConsistent, need_update-false_iff, need_update_conflict,
}
use undermoon_operator.Controllers.Utils.Defaults.{field_var, need_update-field_var}
use undermoon_operator.Controllers.Broker.{create_broker_stateful_set, broker_stateful_set_changed}
use undermoon_operator.Controllers.Coordinator.{
  create_coordinator_stateful_set, coordinator_stateful_set_changed,
}
use undermoon_operator.Controllers.Storage.{
  create_storage_stateful_set, storage_stateful_set_changed,
}
use undermoon_operator.Controllers.Unchanged.{
  AreMaps, storage_stateful_set_changed-create, broker_stateful_set_changed-create,
  coordinator_stateful_set_changed-create, storage_update_never_ends,
}
use undermoon_operator.Tests.Data.{log_level, sample_cr, conflicting_cr, some_requirements}

abbrev info : EnvVar
info = log_level (codes "info")

abbrev warn : EnvVar
warn = log_level (codes "warn")

need_update-false_iff_example :
    (env_var_list_need_update (warn ∷ info ∷ []) (info ∷ []) ≡ false)
    ↔ All (λ v. last_of_name (warn ∷ info ∷ []) v.name ≡ some v) (info ∷ [])
need_update-false_iff_example = need_update-false_iff (warn ∷ info ∷ []) (info ∷ [])

warn-ne-info : warn ≢ info
warn-ne-info h = ground (arith, values_differ, ap (λ v. v.value) h)
  where
    values_differ : codes "warn" ≢ codes "info"
    values_differ = ground arith

need_update_conflict_example :
    env_var_list_need_update (warn ∷ info ∷ []) ([] ++ warn ∷ (info ∷ [])) ≡ true
need_update_conflict_example =
    need_update_conflict (warn ∷ info ∷ []) [] [] warn info refl warn-ne-info

-- The variable as the API server stores it.
abbrev stored_var : EnvVar
stored_var = record {
  name = codes "NODE";
  value = [];
  value_from = some (record (from_field (codes "spec.nodeName")) {
    field_ref = some (record { api_version = codes "v1"; field_path = codes "spec.nodeName" });
  });
}

need_update-field_var_example :
    env_var_list_need_update
      (info ∷ stored_var ∷ [])
      ((info ∷ []) ++ field_var (codes "NODE") (codes "spec.nodeName") ∷ [])
    ≡ true
need_update-field_var_example =
    need_update-field_var (info ∷ stored_var ∷ []) (info ∷ []) [] (codes "NODE")
      (codes "spec.nodeName") (tt, ((λ h. ground (arith, h)), tt))

equal_self : (q : Opaque) → (q == q) ≡ true
equal_self q = ground arith

one_variable : (v : EnvVar) → IsConsistent (v ∷ [])
unfolding last_of_name
one_variable v = (ground (arith, bytes_eq_self v.name), tt)

some_requirements-AreMaps : AreMaps some_requirements
unfolding bytes_eq
some_requirements-AreMaps = (((refl, refl, tt), (tt, tt)), (tt, tt))

storage_stateful_set_changed-create_example :
    storage_stateful_set_changed ◌==◌ sample_cr (create_storage_stateful_set sample_cr).0
    ≡ some false
storage_stateful_set_changed-create_example =
    storage_stateful_set_changed-create ◌==◌ equal_self sample_cr (one_variable warn) tt
      some_requirements-AreMaps (tt, tt)

broker_stateful_set_changed-create_example :
    broker_stateful_set_changed ◌==◌ sample_cr (create_broker_stateful_set (codes "op") sample_cr).0
    ≡ some false
broker_stateful_set_changed-create_example =
    broker_stateful_set_changed-create ◌==◌ equal_self sample_cr (codes "op") (one_variable info)
      some_requirements-AreMaps

coordinator_stateful_set_changed-create_example :
    coordinator_stateful_set_changed ◌==◌ sample_cr (create_coordinator_stateful_set sample_cr).0
    ≡ some false
coordinator_stateful_set_changed-create_example =
    coordinator_stateful_set_changed-create ◌==◌ equal_self sample_cr tt (tt, tt)

storage_update_never_ends_example :
    storage_stateful_set_changed ◌==◌ conflicting_cr (create_storage_stateful_set conflicting_cr).0
    ≡ some true
storage_update_never_ends_example =
    storage_update_never_ends ◌==◌ equal_self conflicting_cr [] [] warn info refl refl warn-ne-info
