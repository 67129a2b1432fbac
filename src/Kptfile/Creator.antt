-- ===== src/Kptfile/Creator.antt =====
-- The methods of `KptCreator` that run commands.
mod Parts
pub mod Subst
use test_minio.Base.{String, none, some, List, [], ◌∷◌, ◌++◌, map, ◌<>◌}
use test_minio.Base.Text.{replace_char}
use test_minio.Kptfile
use test_minio.Kptfile.{Command, create_setter}

-- KptCreator.create_subst_asm
pub create_subst_asm : String → List Command
create_subst_asm path =
    create_setter "gcloud.project.projectNumber" "147474701642" path none
    ∷ Kptfile.create_subst "asm-gcp-metadata" "project-id|147474701642|name|us-central1-c"
        "${gcloud.core.project}|${gcloud.project.projectNumber}|${name}|${location}" path
    ∷ Kptfile.create_subst "asm-cluster-url"
        "https://container.googleapis.com/v1/projects/project-id/locations/us-central1/clusters/name"
        "https://container.googleapis.com/v1/projects/${gcloud.core.project}/locations/${location}/clusters/${name}"
        path
    ∷ Kptfile.create_subst "asm-mesh-id" "project-id_us-central1_name"
        "${gcloud.core.project}_${location}_${name}" path
    ∷ Kptfile.create_subst "mesh-id" "project-id_us-east1-d_name"
        "${gcloud.core.project}_${location}_${name}" path
    ∷ Kptfile.create_subst "asm-cluster-name" "project-id/us-central1/name"
        "${gcloud.core.project}/${location}/${name}" path
    ∷ []

abbrev pub registries : List String
registries = "quay.io/jetstack" ∷ "gcr.io/kubeflow-images-public" ∷ "metacontroller" ∷ []

-- the loop over the registries
abbrev pub mirror : String → String → Command
mirror path registry =
    Kptfile.create_subst ("image-mirror-" <> replace_char b'/' "." registry)
      ("gcr.io/project-id/mirror/" <> registry)
      ("gcr.io/${gcloud.core.project}/mirror/" <> registry) path

-- KptCreator.create_subst_private
pub create_subst_private : String → List Command
create_subst_private path = map (mirror path) registries

-- KptCreator.create_subst_mgmt
unfoldable pub create_subst_mgmt : String → List Command
create_subst_mgmt path =
    create_setter "location" "us-central1-f" path none
    ∷ create_setter "name" "name" path none
    ∷ create_setter "gcloud.core.project" "project" path none
    ∷ Kptfile.create_subst "cluster-name" "project-id/mgmt-location/mgmt-name"
        "${gcloud.core.project}/${location}/${name}" path
    ∷ Kptfile.create_subst "pool" "name-pool" "${name}-pool" path
    ∷ Kptfile.create_subst "cnrm-sa"
        "serviceAccount:mgmt-project-id.svc.id.goog[cnrm-system/cnrm-controller-manager]"
        "serviceAccount:${gcloud.core.project}.svc.id.goog[cnrm-system/cnrm-controller-manager]"
        path
    ∷ []

-- KptCreator.create_subst_stacks
unfoldable pub create_subst_stacks : String → List Command
create_subst_stacks path =
    create_setter "name" "name" path none
    ∷ create_setter "gcloud.core.project" "project-id" path none
    ∷ Kptfile.create_subst "admin-sa-ref" "name-admin@project-id.iam.gserviceaccount.com"
        "${name}-admin@${gcloud.core.project}.iam.gserviceaccount.com" path
    ∷ Kptfile.create_subst "user-sa-ref" "name-user@project-id.iam.gserviceaccount.com"
        "${name}-user@${gcloud.core.project}.iam.gserviceaccount.com" path
    ∷ []

-- KptCreator.restore, which runs in the current directory
pub restore : List Command
restore =
    map
      (λ subdir. record { argv = "git" ∷ "checkout" ∷ "upstream/master" ∷ subdir ∷ []; cwd = none })
      ("gcp/cloud-endpoints" ∷ "gcp/deployment_manager_configs" ∷ "gcp/gpu-driver"
        ∷ "gcp/iap-ingress" ∷ "gcp/prometheus" ∷ "gcp/privateutil" ∷ [])
