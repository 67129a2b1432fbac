-- ===== src/ProfileController/Openshift/Resources.antt =====
-- The child resources of distributions/stacks/openshift/application/pipeline/sync.py that differ from
-- those of the other versions.
use test_minio.Base.{String, Bool, [], ◌∷◌}
use test_minio.Base.Value.{Value, str, num, obj, arr}
use test_minio.ProfileController.Resources.{sidecar_annotations}

unfoldable pub visualization_deployment : String → Bool → Value → Value
visualization_deployment image disable_istio_sidecar namespace = obj (
    ("apiVersion", str "apps/v1")
    ∷ ("kind", str "Deployment")
    ∷ (
      "metadata",
      obj (
          ("labels", obj (("app", str "ml-pipeline-visualizationserver") ∷ []))
          ∷ ("name", str "ml-pipeline-visualizationserver")
          ∷ ("namespace", namespace)
          ∷ []),
    )
    ∷ (
      "spec",
      obj (
          (
            "selector",
            obj (("matchLabels", obj (("app", str "ml-pipeline-visualizationserver") ∷ [])) ∷ []),
          )
          ∷ (
            "template",
            obj (
                (
                  "metadata",
                  obj (
                      ("labels", obj (("app", str "ml-pipeline-visualizationserver") ∷ []))
                      ∷ ("annotations", sidecar_annotations disable_istio_sidecar)
                      ∷ []),
                )
                ∷ (
                  "spec",
                  obj (
                      (
                        "containers",
                        arr (
                            (obj (
                              ("image", str image)
                              ∷ ("imagePullPolicy", str "IfNotPresent")
                              ∷ ("name", str "ml-pipeline-visualizationserver")
                              ∷ ("ports", arr ((obj (("containerPort", num 8888) ∷ [])) ∷ []))
                              ∷ []))
                            ∷ []),
                      )
                      ∷ ("serviceAccountName", str "default-editor")
                      ∷ []),
                )
                ∷ []),
          )
          ∷ []),
    )
    ∷ [])

unfoldable pub visualization_service_role : Value → Value
visualization_service_role namespace = obj (
    ("apiVersion", str "rbac.istio.io/v1alpha1")
    ∷ ("kind", str "ServiceRole")
    ∷ (
      "metadata",
      obj (("name", str "ml-pipeline-visualizationserver") ∷ ("namespace", namespace) ∷ []),
    )
    ∷ (
      "spec",
      obj (
          (
            "rules",
            arr (
                (obj (("services", arr ((str "ml-pipeline-visualizationserver.*") ∷ [])) ∷ []))
                ∷ []),
          )
          ∷ []),
    )
    ∷ [])

unfoldable pub visualization_service_role_binding : Value → Value
visualization_service_role_binding namespace = obj (
    ("apiVersion", str "rbac.istio.io/v1alpha1")
    ∷ ("kind", str "ServiceRoleBinding")
    ∷ (
      "metadata",
      obj (("name", str "ml-pipeline-visualizationserver") ∷ ("namespace", namespace) ∷ []),
    )
    ∷ (
      "spec",
      obj (
          (
            "subjects",
            arr (
                (obj (
                  (
                    "properties",
                    obj (("source.principal", str "cluster.local/ns/kubeflow/sa/ml-pipeline") ∷ []),
                  )
                  ∷ []))
                ∷ []),
          )
          ∷ (
            "roleRef",
            obj (
                ("kind", str "ServiceRole") ∷ ("name", str "ml-pipeline-visualizationserver") ∷ []),
          )
          ∷ []),
    )
    ∷ [])

unfoldable pub artifact_deployment : String → Bool → Value → Value
artifact_deployment image disable_istio_sidecar namespace = obj (
    ("apiVersion", str "apps/v1")
    ∷ ("kind", str "Deployment")
    ∷ (
      "metadata",
      obj (
          ("labels", obj (("app", str "ml-pipeline-ui-artifact") ∷ []))
          ∷ ("name", str "ml-pipeline-ui-artifact")
          ∷ ("namespace", namespace)
          ∷ []),
    )
    ∷ (
      "spec",
      obj (
          (
            "selector",
            obj (("matchLabels", obj (("app", str "ml-pipeline-ui-artifact") ∷ [])) ∷ []),
          )
          ∷ (
            "template",
            obj (
                (
                  "metadata",
                  obj (
                      ("labels", obj (("app", str "ml-pipeline-ui-artifact") ∷ []))
                      ∷ ("annotations", sidecar_annotations disable_istio_sidecar)
                      ∷ []),
                )
                ∷ (
                  "spec",
                  obj (
                      (
                        "containers",
                        arr (
                            (obj (
                              ("name", str "ml-pipeline-ui-artifact")
                              ∷ ("image", str image)
                              ∷ ("imagePullPolicy", str "IfNotPresent")
                              ∷ ("ports", arr ((obj (("containerPort", num 3000) ∷ [])) ∷ []))
                              ∷ []))
                            ∷ []),
                      )
                      ∷ ("serviceAccountName", str "default-editor")
                      ∷ []),
                )
                ∷ []),
          )
          ∷ []),
    )
    ∷ [])
