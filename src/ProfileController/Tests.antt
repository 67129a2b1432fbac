-- ===== src/ProfileController/Tests.antt =====
-- Runs of the controllers, and the theorems at a concrete namespace.
use test_minio.Base.{
  ℕ, String, ◌≡◌, refl, ok, Dict, [], ◌∷◌, true, false, lookup, arith, map, All, ◌==◌,
  if◌then◌else◌,
}
use test_minio.Base.Value.{
  Value, str, obj, null, get_or, get_item, get_path, find, len, is_text, truthy,
}
use test_minio.Base64.{b64encode_utf8, b64decode}
use test_minio.Base64.Codec.{utf8_encode, ascii_decode}
use test_minio.Base64.Bytes.{b2a, alphabet}
use test_minio.ProfileController.{label, child_count, setting, encoded_setting, flag, do_post}
use test_minio.ProfileController.Pipeline
use test_minio.ProfileController.Tekton
use test_minio.ProfileController.Openshift
use test_minio.ProfileController.Status.{
  status_response, pipeline_kinds, openshift_kinds, pipeline_sync_lem, tekton_sync_lem,
  openshift_sync_lem,
}
use test_minio.ProfileController.Identity.{
  LiesIn, identity, distinct, without_secrets, pipeline_identity, tekton_identity,
  openshift_identity, pipeline_secrecy,
}
use test_minio.ProfileController.Credentials.{host, variable, field_name, minio_secret_decodes}

abbrev environ : Dict String
environ =
    ("KFP_VERSION", "1.7")
    ∷ ("MINIO_ACCESS_KEY", "a")
    ∷ ("MINIO_SECRET_KEY", "b")
    ∷ ("MINIO_HOST", "minio")
    ∷ ("MINIO_PORT", "9000")
    ∷ ("MINIO_SECURE", "false")
    ∷ ("airgapRegistry", "")
    ∷ []

abbrev settings : Pipeline.Settings
settings = record {
  kfp_version = "1.7";
  disable_istio_sidecar = false;
  mlpipeline_minio_access_key = "YQ==";
  mlpipeline_minio_secret_key = "Yg==";
  mlpipeline_minio_host = "bWluaW8=";
  mlpipeline_minio_port = "OTAwMA==";
  mlpipeline_minio_secure = "ZmFsc2U=";
  airgap_registry = "";
}

load_settings_runs : Pipeline.load_settings environ ≡ ok settings
unfolding Pipeline.load_settings setting encoded_setting flag lookup b64encode_utf8 utf8_encode
    ascii_decode b2a alphabet
load_settings_runs = refl

abbrev few : Tekton.Settings
few = record {
  kfp_version = "1.7";
  disable_istio_sidecar = true;
  mlpipeline_minio_access_key = "YQ==";
  mlpipeline_minio_secret_key = "Yg==";
}

abbrev open_settings : Openshift.Settings
open_settings = record {
  kfp_version = "1.7";
  disable_istio_sidecar = true;
  mlpipeline_minio_access_key = "YQ==";
  mlpipeline_minio_secret_key = "Yg==";
}

abbrev parent : Value
parent = obj (
    (
      "metadata",
      obj (
          ("name", str "anna")
          ∷ (
            "labels",
            obj (
                ("pipelines.kubeflow.org/enabled", str "true")
                ∷ ("serving.kubeflow.org/inferenceservice", str "enabled")
                ∷ []),
          )
          ∷ []),
    )
    ∷ [])

abbrev one_child : Value
one_child = obj (("x", null) ∷ [])

abbrev two_children : Value
two_children = obj (("x", null) ∷ ("y", null) ∷ [])

abbrev children : Value
children = obj (
    ("Secret.v1", one_child)
    ∷ ("ConfigMap.v1", one_child)
    ∷ ("Deployment.apps/v1", two_children)
    ∷ ("Service.v1", two_children)
    ∷ ("DestinationRule.networking.istio.io/v1alpha3", one_child)
    ∷ ("AuthorizationPolicy.security.istio.io/v1beta1", one_child)
    ∷ ("ServiceRole.rbac.istio.io/v1alpha1", one_child)
    ∷ ("ServiceRoleBinding.rbac.istio.io/v1alpha1", one_child)
    ∷ [])

abbrev observed : String → ℕ
observed key = if key == "Deployment.apps/v1" then 2 else if key == "Service.v1" then 2 else 1

pipeline_sync_lem_example :
    Pipeline.sync settings parent children
    ≡ ok
        (status_response pipeline_kinds observed (Pipeline.desired_resources settings (str "anna")))
unfolding label child_count get_or get_item find len is_text
pipeline_sync_lem_example =
    pipeline_sync_lem parent children (str "anna") (str "true") observed refl settings refl
      (refl, (refl, (refl, (refl, (refl, (refl, tt))))))

tekton_sync_lem_example :
    Tekton.sync few parent children
    ≡ ok (status_response pipeline_kinds observed (Tekton.desired_resources few (str "anna")))
unfolding label child_count get_or get_item find len is_text
tekton_sync_lem_example =
    tekton_sync_lem parent children (str "anna") (str "true") observed refl few refl
      (refl, (refl, (refl, (refl, (refl, (refl, tt))))))

openshift_sync_lem_example :
    Openshift.sync open_settings parent children
    ≡ ok (
        status_response openshift_kinds observed
          (Openshift.desired_resources open_settings (str "anna")))
unfolding label child_count get_or get_item find len truthy
openshift_sync_lem_example =
    openshift_sync_lem parent children (str "anna") (str "enabled") observed refl open_settings refl
      (refl, (refl, (refl, (refl, (refl, (refl, (refl, tt)))))))

pipeline_identity_example :
    All (LiesIn (str "anna")) (Pipeline.desired_resources settings (str "anna"))
    × (distinct (map identity (Pipeline.desired_resources settings (str "anna"))) ≡ true)
pipeline_identity_example = pipeline_identity settings (str "anna")

tekton_identity_example :
    All (LiesIn (str "anna")) (Tekton.desired_resources few (str "anna"))
    × (distinct (map identity (Tekton.desired_resources few (str "anna"))) ≡ true)
tekton_identity_example = tekton_identity few (str "anna")

openshift_identity_example :
    All (LiesIn (str "anna")) (Openshift.desired_resources open_settings (str "anna"))
    × (distinct (map identity (Openshift.desired_resources open_settings (str "anna"))) ≡ true)
openshift_identity_example = openshift_identity open_settings (str "anna")

abbrev blank : Pipeline.Settings
blank = record settings {
  mlpipeline_minio_access_key = "";
  mlpipeline_minio_secret_key = "";
  mlpipeline_minio_host = "";
  mlpipeline_minio_port = "";
  mlpipeline_minio_secure = "";
}

pipeline_secrecy_example :
    (Pipeline.printed_resources blank (str "anna")
      ≡ Pipeline.printed_resources settings (str "anna"))
    × (without_secrets (Pipeline.desired_resources blank (str "anna"))
        ≡ without_secrets (Pipeline.desired_resources settings (str "anna")))
pipeline_secrecy_example = pipeline_secrecy settings (str "anna") "" "" "" "" ""

minio_secret_decodes_example :
    (t : String) × (get_path
        ("data" ∷ field_name host ∷ [])
        (Pipeline.minio_secret settings (str "anna"))
      ≡ ok (str t))
    × (b64decode t ≡ ok "minio")
unfolding variable lookup
minio_secret_decodes_example =
    minio_secret_decodes host environ settings (str "anna") "minio" load_settings_runs refl
      (omega arith)

-- A namespace without labels is answered too.
post_runs :
    do_post
      (λ body. ok (obj (("parent", obj []) ∷ ("children", obj []) ∷ [])))
      (λ v. "{}")
      (Pipeline.sync settings)
      "..."
    ≡ ok (record { status = 200; content_type = "application/json"; body = "{}" })
unfolding do_post Pipeline.sync label get_or get_item find is_text
post_runs = refl
