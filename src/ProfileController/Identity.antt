-- ===== src/ProfileController/Identity.antt =====
-- Which resources the controllers desire: in the namespace of the parent, each once, and with the
-- credentials in the secret only.
use test_minio.Base.{
  String, ◌≡◌, refl, Bool, true, not, ◌&&◌, List, [], ◌∷◌, ◌<>◌, ok, ◌==◌, elem, map, All,
  if◌then◌else◌,
}
use test_minio.Base.Value.{Value, str, get_path, get_item, find}
use test_minio.ProfileController.Status.{group_key}
use test_minio.ProfileController.Pipeline
use test_minio.ProfileController.Tekton
use test_minio.ProfileController.Openshift

-- kind, API version and name of a resource
pub identity : Value → String
unfolding group_key get_path
identity r = elim (get_path ("metadata" ∷ "name" ∷ []) r) [
  | ok (str name) ↦ group_key r <> "/" <> name
  | _ ↦ group_key r <> "/"
]

-- No text occurs twice.
pub distinct : List String → Bool
unfolding elem
distinct [] = true
distinct (x ∷ xs) = not (elem x xs) && distinct xs

-- The resource lies in the namespace.
abbrev pub LiesIn : Value → Value → Type 0
LiesIn namespace r = get_path ("metadata" ∷ "namespace" ∷ []) r ≡ ok namespace

-- the resources that are no secrets
pub without_secrets : List Value → List Value
unfolding group_key
without_secrets [] = []
without_secrets (r ∷ rs) =
    let rest = without_secrets rs in if group_key r == "Secret.v1" then rest else r ∷ rest

-- All resources that the controller of apps/pipeline desires lie in the namespace of the parent,
-- and no two have the same kind, API version and name.
pub pipeline_identity :
    (settings : Pipeline.Settings) (namespace : Value)
    → All (LiesIn namespace) (Pipeline.desired_resources settings namespace)
      × (distinct (map identity (Pipeline.desired_resources settings namespace)) ≡ true)
unfolding Pipeline.desired_resources identity distinct get_path get_item find
pipeline_identity settings namespace =
    ((refl, (refl, (refl, (refl, (refl, (refl, (refl, (refl, (refl, (refl, tt)))))))))), refl)

-- All resources that the controller of apps/kfp-tekton desires lie in the namespace of the parent,
-- and no two have the same kind, API version and name.
pub tekton_identity :
    (settings : Tekton.Settings) (namespace : Value)
    → All (LiesIn namespace) (Tekton.desired_resources settings namespace)
      × (distinct (map identity (Tekton.desired_resources settings namespace)) ≡ true)
unfolding Tekton.desired_resources identity distinct get_path get_item find
tekton_identity settings namespace =
    ((refl, (refl, (refl, (refl, (refl, (refl, (refl, (refl, tt)))))))), refl)

-- All resources that the controller of the OpenShift stack desires lie in the namespace of the
-- parent, and no two have the same kind, API version and name.
pub openshift_identity :
    (settings : Openshift.Settings) (namespace : Value)
    → All (LiesIn namespace) (Openshift.desired_resources settings namespace)
      × (distinct (map identity (Openshift.desired_resources settings namespace)) ≡ true)
unfolding Openshift.desired_resources identity distinct get_path get_item find
openshift_identity settings namespace =
    ((refl, (refl, (refl, (refl, (refl, (refl, (refl, (refl, (refl, tt))))))))), refl)

-- Neither what the controller of apps/pipeline prints nor any desired resource that is no secret
-- depends on the parameters of MinIO.
pub pipeline_secrecy :
    (s : Pipeline.Settings) (namespace : Value) (access_key secret_key host port secure : String)
    → let t = record s {
      mlpipeline_minio_access_key = access_key;
      mlpipeline_minio_secret_key = secret_key;
      mlpipeline_minio_host = host;
      mlpipeline_minio_port = port;
      mlpipeline_minio_secure = secure;
    } in
      (Pipeline.printed_resources t namespace ≡ Pipeline.printed_resources s namespace)
      × (without_secrets (Pipeline.desired_resources t namespace)
          ≡ without_secrets (Pipeline.desired_resources s namespace))
unfolding Pipeline.desired_resources without_secrets get_item find
pipeline_secrecy s namespace access_key secret_key host port secure = (refl, refl)
