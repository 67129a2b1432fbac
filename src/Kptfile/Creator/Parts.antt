-- ===== src/Kptfile/Creator/Parts.antt =====
-- The parts of `KptCreator.create_subst`, in the order of the source.
use test_minio.Base.{String, none, some, List, [], ◌∷◌, ◌<>◌}
use test_minio.Kptfile
use test_minio.Kptfile.{Command, create_setter}

-- the first four setters
abbrev pub project_setters : String → List Command
project_setters path =
    create_setter "gcloud.core.project" "project-id" path none
    ∷ create_setter "name" "name" path none
    ∷ create_setter "gcloud.compute.zone" "us-east1-d" path none
    ∷ create_setter "gcloud.compute.region" "us-central1" path none
    ∷ []

-- the loop over the namespaces
abbrev pub kfadmin_member : String → String → Command
kfadmin_member path ns =
    Kptfile.create_subst ("iampolicy-member-kfadmin-" <> ns)
      ("serviceAccount:project-id.svc.id.goog[" <> (ns <> "/kf-admin]"))
      ("serviceAccount:${gcloud.core.project}.svc.id.goog[" <> (ns <> "/kf-admin]")) path

-- the location, the firewall logs, storage and the address
abbrev pub location_and_storage : String → List Command
location_and_storage path =
    create_setter "location" "us-east1-d" path none
    ∷ create_setter "log-firewalls" "false" path (some "spec.enableLogging")
    ∷ Kptfile.create_subst "name-storage-metadata-store" "name-storage-metadata-store"
        "${name}-storage-metadata-store" path
    ∷ Kptfile.create_subst "name-storage-artifact-store" "name-storage-artifact-store"
        "${name}-storage-artifact-store" path
    ∷ Kptfile.create_subst "name-ip" "name-ip" "${name}-ip" path
    ∷ []

-- the loops over zones, routes and rules
abbrev pub named : String → String → Command
named path z = Kptfile.create_subst ("name-" <> z) ("name-" <> z) ("${name}-" <> z) path

abbrev pub zones : List String
zones = "gcr" ∷ "gcr-cname" ∷ "gcr-a" ∷ "goog-apis" ∷ "goog-cname" ∷ "goog-a" ∷ []

abbrev pub routes : List String
routes = "google-apis" ∷ "internet" ∷ []

abbrev pub rules : List String
rules =
    "deny-egress" ∷ "health-ingress" ∷ "health-egress" ∷ "apis-egress" ∷ "master-egress"
    ∷ "int-egress" ∷ "istio" ∷ "cm" ∷ "dockerhub" ∷ "iap-jwks" ∷ []

abbrev pub ksa_names : List String
ksa_names =
    "ml-pipeline-ui" ∷ "ml-pipeline-visualization" ∷ "ml-pipeline-visualizationserver"
    ∷ "pipeline-runner" ∷ []

-- the first loop over the service accounts of the pipelines
abbrev pub workload_identity : String → String → Command
workload_identity path ksa =
    Kptfile.create_subst ("name-user-workload-identity-user-" <> ksa)
      ("name-user-workload-identity-user-" <> ksa) ("${name}-user-workload-identity-user-" <> ksa)
      path

-- the second one
abbrev pub workload_member : String → String → Command
workload_member path ksa =
    Kptfile.create_subst ("name-user-workload-identity-user-" <> (ksa <> "-member"))
      ("serviceAccount:project-id.svc.id.goog[kubeflow/" <> (ksa <> "]"))
      ("serviceAccount:${gcloud.core.project}.svc.id.goog[kubeflow/" <> (ksa <> "]")) path

abbrev pub services : List String
services =
    "cloudbuild" ∷ "viewer" ∷ "source" ∷ "storage" ∷ "bigquery" ∷ "dataflow" ∷ "ml" ∷ "dataproc"
    ∷ "cloudsql" ∷ "logging" ∷ "metricwriter" ∷ "monitoringviewer" ∷ []

-- the loop over the services
abbrev pub user_policy : String → String → Command
user_policy path s =
    Kptfile.create_subst ("name-user-" <> s) ("name-user-" <> s) ("${name}-user-" <> s) path

abbrev pub vm_policies : List String
vm_policies = "monitoring" ∷ "meshtelemetry" ∷ "cloudtrace" ∷ "monitoring-viewer" ∷ "storage" ∷ []

-- the loop over the policies of the machine account
abbrev pub vm_policy : String → String → Command
vm_policy path a =
    Kptfile.create_subst ("name-vm-policy-" <> a) ("name-vm-policy-" <> a)
      ("${name}-vm-policy-" <> a) path

-- before it
abbrev pub vm_logging : String → List Command
vm_logging path =
    Kptfile.create_subst "name-vm-policy-logging" "name-vm-logging" "${name}-vm-logging" path ∷ []

-- the cluster, the service accounts and the workload identity
abbrev pub cluster_and_accounts : String → List Command
cluster_and_accounts path =
    Kptfile.create_subst "cluster-name" "project-id/us-east1-d/name"
      "${gcloud.core.project}/${location}/${name}" path
    ∷ Kptfile.create_subst "identity-ns" "project-id.svc.id.goog"
        "${gcloud.core.project}.svc.id.goog" path
    ∷ Kptfile.create_subst "admin-sa-name" "name-admin" "${name}-admin" path
    ∷ Kptfile.create_subst "user-sa-name" "name-user" "${name}-user" path
    ∷ Kptfile.create_subst "name-admin-wi" "name-admin-workload-identity-user"
        "${name}-admin-workload-identity-user" path
    ∷ Kptfile.create_subst "admin-profiles-sa-wi"
        "serviceAccount:project-id.svc.id.goog[kubeflow/profiles-controller-service-account]"
        "serviceAccount:${gcloud.core.project}.svc.id.goog[kubeflow/profiles-controller-service-account]"
        path
    ∷ []

abbrev pub suffixes : List String
suffixes = "ml-pipeline-ui" ∷ "ml-pipeline-visualizationserver" ∷ "pipeline-runner" ∷ []

-- the loop over the suffixes
abbrev pub user_wi : String → String → Command
user_wi path suffix =
    Kptfile.create_subst ("user-wi-" <> suffix) ("name-user-workload-identity-user-" <> suffix)
      ("${name}" <> ("-user-workload-identity-user-" <> suffix)) path

-- the references_ to the service accounts, and the node pool
abbrev pub references_ : String → List Command
references_ path =
    Kptfile.create_subst "projects" "projects/project-id" "projects/${gcloud.core.project}" path
    ∷ Kptfile.create_subst "admin-service-account"
        "serviceAccount:name-admin@project-id.iam.gserviceaccount.com"
        "serviceAccount:${name}-admin@${gcloud.core.project}.iam.gserviceaccount.com" path
    ∷ Kptfile.create_subst "user-service-account"
        "serviceAccount:name-user@project-id.iam.gserviceaccount.com"
        "serviceAccount:${name}-user@${gcloud.core.project}.iam.gserviceaccount.com" path
    ∷ Kptfile.create_subst "vm-service-account"
        "serviceAccount:name-vm@project-id.iam.gserviceaccount.com"
        "serviceAccount:${name}-vm@${gcloud.core.project}.iam.gserviceaccount.com" path
    ∷ Kptfile.create_subst "vm-sa-ref" "name-vm@project-id.iam.gserviceaccount.com"
        "${name}-vm@${gcloud.core.project}.iam.gserviceaccount.com" path
    ∷ Kptfile.create_subst "admin-sa-ref" "name-admin@project-id.iam.gserviceaccount.com"
        "${name}-admin@${gcloud.core.project}.iam.gserviceaccount.com" path
    ∷ Kptfile.create_subst "user-sa-ref" "name-user@project-id.iam.gserviceaccount.com"
        "${name}-user@${gcloud.core.project}.iam.gserviceaccount.com" path
    ∷ Kptfile.create_subst "node-pool-cpu" "name-cpu-pool-v1" "${name}-cpu-pool-v1" path
    ∷ Kptfile.create_subst "name-admin-manages-user" "name-admin-manages-user"
        "${name}-admin-manages-user" path
    ∷ []

abbrev pub admin_policies : List String
admin_policies =
    "admin-source" ∷ "admin-servicemanagement" ∷ "admin-network" ∷ "admin-cloudbuild"
    ∷ "admin-viewer" ∷ "admin-storage" ∷ "admin-bigquery" ∷ "admin-dataflow" ∷ "admin-ml"
    ∷ "admin-dataproc" ∷ "admin-cloudsql" ∷ "admin-logging" ∷ "admin-metricwriter"
    ∷ "admin-monitoringviewer" ∷ []

-- the loop over the policies of the admin account
abbrev pub admin_policy : String → String → Command
admin_policy path a = Kptfile.create_subst (a <> "-iam") ("name-" <> a) ("${name}-" <> a) path

-- the last substitution
abbrev pub vm_name : String → List Command
vm_name path = Kptfile.create_subst "name-vm" "name-vm" "${name}-vm" path ∷ []
