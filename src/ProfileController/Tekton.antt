-- ===== src/ProfileController/Tekton.antt =====
-- apps/kfp-tekton/upstream/base/installs/multi-user/pipelines-profile-controller/sync.py
use test_minio.Base.{
  String, Bool, ℕ, List, [], ◌∷◌, ◌++◌, ◌<>◌, Result, ok, ◌>>=◌, Dict, if◌then◌else◌,
}
use test_minio.Base.Value.{Value, str, obj, is_text}
use test_minio.ProfileController.{setting, encoded_setting, flag, label, disabled, enabled_response}
use test_minio.ProfileController.Resources.{
  metadata_grpc_configmap, visualization_deployment, visualization_destination_rule,
  visualization_authorization_policy, visualization_service,
}
use test_minio.ProfileController.Resources.Artifact.{artifact_deployment, artifact_service}

-- the globals, from the environment
pub record Settings : Type 0 where
  pub kfp_version : String
  pub disable_istio_sidecar : Bool
  pub mlpipeline_minio_access_key : String
  pub mlpipeline_minio_secret_key : String

unfoldable pub load_settings : Dict String → Result Settings
load_settings environ = do
  version ← setting environ "KFP_VERSION"
  access_key ← encoded_setting environ "MINIO_ACCESS_KEY"
  secret_key ← encoded_setting environ "MINIO_SECRET_KEY"
  ok (record {
    kfp_version = version;
    disable_istio_sidecar = flag environ "DISABLE_ISTIO_SIDECAR";
    mlpipeline_minio_access_key = access_key;
    mlpipeline_minio_secret_key = secret_key;
  })

unfoldable pub minio_secret : Settings → Value → Value
minio_secret settings namespace = obj (
    ("apiVersion", str "v1")
    ∷ ("kind", str "Secret")
    ∷ ("metadata", obj (("name", str "mlpipeline-minio-artifact") ∷ ("namespace", namespace) ∷ []))
    ∷ (
      "data",
      obj (
          ("accesskey", str settings.mlpipeline_minio_access_key)
          ∷ ("secretkey", str settings.mlpipeline_minio_secret_key)
          ∷ []),
    )
    ∷ [])

-- the resources as `print` shows them, before those that are appended
unfoldable pub printed_resources : Settings → Value → List Value
unfolding metadata_grpc_configmap visualization_deployment visualization_destination_rule
    visualization_authorization_policy visualization_service artifact_deployment artifact_service
printed_resources settings namespace =
    metadata_grpc_configmap namespace
    ∷ visualization_deployment ("gcr.io/ml-pipeline/visualization-server:" <> settings.kfp_version)
        settings.disable_istio_sidecar namespace
    ∷ visualization_destination_rule namespace
    ∷ visualization_authorization_policy namespace
    ∷ visualization_service namespace
    ∷ artifact_deployment ("gcr.io/ml-pipeline/frontend:" <> settings.kfp_version)
        settings.disable_istio_sidecar namespace
    ∷ artifact_service namespace
    ∷ []

unfoldable pub desired_resources : Settings → Value → List Value
unfolding printed_resources minio_secret
desired_resources settings namespace =
    printed_resources settings namespace ++ (minio_secret settings namespace ∷ [])

-- the numbers of children that make the namespace ready
abbrev pub expected : List (String × ℕ)
expected =
    ("Secret.v1", 1)
    ∷ ("ConfigMap.v1", 1)
    ∷ ("Deployment.apps/v1", 2)
    ∷ ("Service.v1", 2)
    ∷ ("DestinationRule.networking.istio.io/v1alpha3", 1)
    ∷ ("AuthorizationPolicy.security.istio.io/v1beta1", 1)
    ∷ []

unfoldable pub sync : Settings → Value → Value → Result Value
sync settings parent children = do
  enabled ← label "pipelines.kubeflow.org/enabled" parent
  if is_text "true" enabled
      then enabled_response expected (desired_resources settings) parent children
      else ok disabled
