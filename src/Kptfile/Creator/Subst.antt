-- ===== src/Kptfile/Creator/Subst.antt =====
-- `KptCreator.create_subst`.
use test_minio.Base.{String, List, [], ◌∷◌, ◌++◌, map}
use test_minio.Kptfile.{Command}
use test_minio.Kptfile.Creator.{create_subst_asm, create_subst_private, restore}
use test_minio.Kptfile.Creator.Parts.{
  project_setters, kfadmin_member, location_and_storage, named, zones, routes, rules, ksa_names,
  workload_identity, workload_member, services, user_policy, vm_logging, vm_policies, vm_policy,
  cluster_and_accounts, suffixes, user_wi, references_, admin_policies, admin_policy, vm_name,
}

abbrev namespaces : List String
namespaces = "kubeflow" ∷ "istio-system" ∷ []

-- The variables of the loops are only read by their loops. `services` is assigned twice, with one value.
unfoldable pub create_subst : String → List Command
unfolding create_subst_asm create_subst_private restore
create_subst path =
    project_setters path
    ++ map (kfadmin_member path) namespaces
    ++ location_and_storage path
    ++ map (named path) zones
    ++ map (named path) routes
    ++ map (named path) rules
    ++ map (workload_identity path) ksa_names
    ++ map (workload_member path) ksa_names
    ++ map (user_policy path) services
    ++ vm_logging path
    ++ map (vm_policy path) vm_policies
    ++ cluster_and_accounts path
    ++ map (user_wi path) suffixes
    ++ references_ path
    ++ map (admin_policy path) admin_policies
    ++ vm_name path
    ++ create_subst_asm path
    ++ create_subst_private path
    ++ restore
