-- ===== src/ProfileController/Status.antt =====
-- The status that the controllers report: a namespace is ready exactly when, for each of the kinds
-- that the controller watches, as many children are observed as the controller itself desires.
use test_minio.Base.{
  ℕ, suc, String, ◌≡◌, refl, Bool, true, ◌&&◌, List, [], ◌∷◌, ◌<>◌, Result, ok, err, ◌>>=◌, ◌==◌,
  ◌=ℕ=◌, if◌then◌else◌, All, map, Bool-cases, inl, inr,
}
use test_minio.Base.Value.{Value, str, null, obj, get_or, get_item, find, is_text, truthy}
use test_minio.ProfileController.{
  label, disabled, child_count, all_counts, response, enabled_response,
}
use test_minio.ProfileController.Pipeline
use test_minio.ProfileController.Tekton
use test_minio.ProfileController.Openshift

-- the text under a key of a resource
pub text_at : String → Value → String
text_at key v = elim (get_item v key) [ ok (str s) ↦ s | _ ↦ "" ]

-- The key under which metacontroller groups a child: `Kind.apiVersion`.
unfoldable pub group_key : Value → String
unfolding text_at get_item find
group_key r = text_at "kind" r <> "." <> text_at "apiVersion" r

-- the resources of a list that fall under the key
pub count_group : String → List Value → ℕ
unfolding group_key
count_group key [] = 0
count_group key (r ∷ rs) =
    let rest = count_group key rs in if group_key r == key then suc rest else rest

-- Each of the keys is observed as often as it is desired.
pub all_agree : (String → ℕ) → (String → ℕ) → List String → Bool
all_agree observed wanted [] = true
all_agree observed wanted (key ∷ keys) =
    (observed key =ℕ= wanted key) && all_agree observed wanted keys

-- The children can be counted under each of the keys.
abbrev pub IsCounted : Value → (String → ℕ) → List String → Type 0
IsCounted children observed = All (λ key. child_count children key ≡ ok (observed key))

all_counts_lem :
    (children : Value) (observed wanted : String → ℕ) (keys : List String)
    → IsCounted children observed keys
    → all_counts (map (λ key. (key, wanted key)) keys) children
      ≡ ok (all_agree observed wanted keys)
unfolding all_counts all_agree
all_counts_lem children observed wanted [] h = refl
all_counts_lem children observed wanted (key ∷ keys) h =
    rw (h.0, all_counts)
      (elim (Bool-cases (observed key =ℕ= wanted key)) [
        | inl e ↦ rw e (all_counts_lem children observed wanted keys h.1)
        | inr e ↦ rw e
      ])

-- parent["metadata"]["name"]
abbrev pub namespace_of : Value → Result Value
namespace_of parent = do metadata ← get_or parent "metadata" (obj []); get_or metadata "name" null

enabled_response_lem :
    (desired : Value → List Value) (parent children namespace : Value)
    (observed wanted : String → ℕ) (keys : List String)
    → namespace_of parent ≡ ok namespace
    → IsCounted children observed keys
    → enabled_response (map (λ key. (key, wanted key)) keys) desired parent children
      ≡ ok (response (all_agree observed wanted keys) (desired namespace))
unfolding enabled_response
enabled_response_lem desired parent children namespace observed wanted keys n h =
    rw (all_counts_lem children observed wanted keys h)
      (response_of (all_agree observed wanted keys) (get_or parent "metadata" (obj [])) n)
  where
    response_of :
        (ready : Bool) (found : Result Value)
        → (found >>= λ metadata. get_or metadata "name" null) ≡ ok namespace
        → (found >>= λ metadata.
            get_or metadata "name" null >>= λ name. ok (response ready (desired name)))
          ≡ ok (response ready (desired namespace))
    response_of ready (ok metadata) n = rw n
    response_of ready (err e) n = absurd (cc n)

abbrev pub pipeline_kinds : List String
pipeline_kinds =
    "Secret.v1" ∷ "ConfigMap.v1" ∷ "Deployment.apps/v1" ∷ "Service.v1"
    ∷ "DestinationRule.networking.istio.io/v1alpha3"
    ∷ "AuthorizationPolicy.security.istio.io/v1beta1" ∷ []

pipeline_expected :
    (settings : Pipeline.Settings) (namespace : Value)
    → Pipeline.expected
      ≡ map
          (λ key. (key, count_group key (Pipeline.desired_resources settings namespace)))
          pipeline_kinds
unfolding Pipeline.desired_resources count_group get_item find
pipeline_expected settings namespace = refl

tekton_expected :
    (settings : Tekton.Settings) (namespace : Value)
    → Tekton.expected
      ≡ map
          (λ key. (key, count_group key (Tekton.desired_resources settings namespace)))
          pipeline_kinds
unfolding Tekton.desired_resources count_group get_item find
tekton_expected settings namespace = refl

abbrev pub openshift_kinds : List String
openshift_kinds =
    "Secret.v1" ∷ "ConfigMap.v1" ∷ "Deployment.apps/v1" ∷ "Service.v1"
    ∷ "DestinationRule.networking.istio.io/v1alpha3" ∷ "ServiceRole.rbac.istio.io/v1alpha1"
    ∷ "ServiceRoleBinding.rbac.istio.io/v1alpha1" ∷ []

openshift_expected :
    (settings : Openshift.Settings) (namespace : Value)
    → Openshift.expected
      ≡ map
          (λ key. (key, count_group key (Openshift.desired_resources settings namespace)))
          openshift_kinds
unfolding Openshift.desired_resources count_group get_item find
openshift_expected settings namespace = refl

-- What a controller answers where pipelines are enabled, for the resources it desires.
abbrev pub status_response : List String → (String → ℕ) → List Value → Value
status_response kinds observed desired =
    response (all_agree observed (λ key. count_group key desired) kinds) desired

module _ (parent children namespace enabled : Value) (observed : String → ℕ)
    (named : namespace_of parent ≡ ok namespace) where
  -- For a parent with a label and a namespace whose children can be counted under the watched
  -- kinds, the controller of apps/pipeline answers, with the label "true", its desired resources
  -- and the status "True" just where each watched kind is observed as often as it is among the
  -- desired resources, and with any other label the empty answer.
  pub pipeline_sync_lem :
      (settings : Pipeline.Settings)
      → label "pipelines.kubeflow.org/enabled" parent ≡ ok enabled
      → IsCounted children observed pipeline_kinds
      → Pipeline.sync settings parent children
        ≡ ok (
            if is_text "true" enabled
            then status_response pipeline_kinds observed
                (Pipeline.desired_resources settings namespace)
            else disabled)
  unfolding Pipeline.sync
  pipeline_sync_lem settings l h = elim (Bool-cases (is_text "true" enabled)) [
    | inr e ↦ rw l (rw e)
    | inl e ↦ rw l (
        rw e (
          rw (pipeline_expected settings namespace) (
            enabled_response_lem (Pipeline.desired_resources settings) parent children namespace
              observed _ pipeline_kinds named h)))
  ]

  -- The controller of apps/kfp-tekton answers as that of apps/pipeline does, with its own desired
  -- resources.
  pub tekton_sync_lem :
      (settings : Tekton.Settings)
      → label "pipelines.kubeflow.org/enabled" parent ≡ ok enabled
      → IsCounted children observed pipeline_kinds
      → Tekton.sync settings parent children
        ≡ ok (
            if is_text "true" enabled
            then status_response pipeline_kinds observed
                (Tekton.desired_resources settings namespace)
            else disabled)
  unfolding Tekton.sync
  tekton_sync_lem settings l h = elim (Bool-cases (is_text "true" enabled)) [
    | inr e ↦ rw l (rw e)
    | inl e ↦ rw l (
        rw e (
          rw (tekton_expected settings namespace) (
            enabled_response_lem (Tekton.desired_resources settings) parent children namespace
              observed _ pipeline_kinds named h)))
  ]

  -- The controller of the OpenShift stack answers as that of apps/pipeline does, with its own
  -- desired resources and watched kinds, and with its own label, which enables by its truth value.
  pub openshift_sync_lem :
      (settings : Openshift.Settings)
      → label "serving.kubeflow.org/inferenceservice" parent ≡ ok enabled
      → IsCounted children observed openshift_kinds
      → Openshift.sync settings parent children
        ≡ ok (
            if truthy enabled
            then status_response openshift_kinds observed
                (Openshift.desired_resources settings namespace)
            else disabled)
  unfolding Openshift.sync
  openshift_sync_lem settings l h = elim (Bool-cases (truthy enabled)) [
    | inr e ↦ rw l (rw e)
    | inl e ↦ rw l (
        rw e (
          rw (openshift_expected settings namespace) (
            enabled_response_lem (Openshift.desired_resources settings) parent children namespace
              observed _ openshift_kinds named h)))
  ]
