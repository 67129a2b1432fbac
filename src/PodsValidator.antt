-- ===== src/PodsValidator.antt =====
-- utils/pods-validator.py: the number of the expected pods that are not ready yet. Listing the pods of
-- a namespace is a parameter; a pod is what the script reads of it.
mod Missing
mod Status
mod Tests
use test_minio.Base.{
  String, Bool, true, false, Option, none, some, List, [], ◌∷◌, ◌++◌, Result, ok, err, type_error,
  index_error, exit_status, ◌>>=◌, ◌==◌, if◌then◌else◌, length,
}
use test_minio.Base.Text.{begins_with}

abbrev pub pods_templates : List String
pods_templates =
    "authservice-" ∷ "cluster-local-" ∷ "istio-citadel-" ∷ "istio-galley-" ∷ "istio-ingressgateway-"
    ∷ "istio-nodeagent-" ∷ "istio-pilot-" ∷ "istio-policy-" ∷ "istio-security-post-install-"
    ∷ "istio-sidecar-injector-" ∷ "istio-telemetry-" ∷ "kfserving-ingressgateway-" ∷ "prometheus-"
    ∷ "admission-webhook-deployment-" ∷ "application-controller-stateful-set-" ∷ "argo-ui-"
    ∷ "centraldashboard-" ∷ "jupyter-web-app-deployment-" ∷ "katib-controller-"
    ∷ "katib-db-manager-" ∷ "katib-mysql-" ∷ "katib-ui-" ∷ "kfserving-controller-manager-"
    ∷ "minio-" ∷ "ml-pipeline-ml-pipeline-visualizationserver-" ∷ "ml-pipeline-persistenceagent-"
    ∷ "ml-pipeline-scheduledworkflow-" ∷ "ml-pipeline-ui-"
    ∷ "ml-pipeline-viewer-controller-deployment-" ∷ "ml-pipeline-" ∷ "mysql-"
    ∷ "notebook-controller-deployment-" ∷ "profiles-deployment-" ∷ "pytorch-operator-"
    ∷ "seldon-controller-manager-" ∷ "spartakus-volunteer-" ∷ "tf-job-operator-"
    ∷ "workflow-controller-" ∷ "dex-" ∷ []

-- metadata.name, status.phase, and status.container_statuses: each container's `ready`, or `None`
pub record Pod : Type 0 where
  pub name : String
  pub phase : String
  pub container_statuses : Option (List Bool)

-- pod.status.container_statuses[0].ready
pub first_ready : Option (List Bool) → Result Bool
first_ready none = err type_error
first_ready (some []) = err index_error
first_ready (some (ready ∷ rest)) = ok ready

pub is_up : Pod → Result Bool
unfolding first_ready
is_up pod =
    if pod.phase == "Succeeded"
    then ok true
    else if pod.phase == "Running"
    then first_ready pod.container_statuses
    else ok false

-- The loop over the templates: the first that the name begins with is removed. No equal one stands
-- before it, so `remove` takes this one.
pub remove_template : String → List String → List String
remove_template name [] = []
remove_template name (template ∷ rest) =
    if begins_with name template then rest else template ∷ remove_template name rest

-- the loop over the pods
pub remove_templates : List Pod → List String → Result (List String)
remove_templates [] templates = ok templates
remove_templates (pod ∷ pods) templates = do
  up ← is_up pod
  remove_templates pods (if up then remove_template pod.name templates else templates)

module _ (list_namespaced_pod : String → Result (List Pod)) where
  pub all_pods : Result (List Pod)
  all_pods = do
    istio ← list_namespaced_pod "istio-system"
    kubeflow ← list_namespaced_pod "kubeflow"
    auth ← list_namespaced_pod "auth"
    ok ((istio ++ kubeflow) ++ auth)

  -- The script ends with `sys.exit(len(pods_templates))`.
  unfoldable pub main : Result (Unit {0})
  main = do
    pods ← all_pods
    rest ← remove_templates pods pods_templates
    err (exit_status (length rest))
