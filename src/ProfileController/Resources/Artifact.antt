-- ===== src/ProfileController/Resources/Artifact.antt =====
-- The deployment and the service of the user interface for artifacts, in the versions of apps/pipeline
-- and apps/kfp-tekton.
use test_minio.Base.{String, Bool, [], ◌∷◌}
use test_minio.Base.Value.{Value, str, num, obj, arr}
use test_minio.ProfileController.Resources.{sidecar_annotations}

unfoldable pub artifact_deployment : String → Bool → Value → Value
artifact_deployment image disable_istio_sidecar namespace = obj (
    ("apiVersion", str "apps/v1")
    ∷ ("kind", str "Deployment")
    ∷ (
      "metadata",
      obj (
          ("labels", obj (("app", str "ml-pipeline-ui-artifact") ∷ []))
          ∷ ("name", str "ml-pipeline-ui-artifact")
          ∷ ("namespace", namespace)
          ∷ []),
    )
    ∷ (
      "spec",
      obj (
          (
            "selector",
            obj (("matchLabels", obj (("app", str "ml-pipeline-ui-artifact") ∷ [])) ∷ []),
          )
          ∷ (
            "template",
            obj (
                (
                  "metadata",
                  obj (
                      ("labels", obj (("app", str "ml-pipeline-ui-artifact") ∷ []))
                      ∷ ("annotations", sidecar_annotations disable_istio_sidecar)
                      ∷ []),
                )
                ∷ (
                  "spec",
                  obj (
                      (
                        "containers",
                        arr (
                            (obj (
                              ("name", str "ml-pipeline-ui-artifact")
                              ∷ ("image", str image)
                              ∷ ("imagePullPolicy", str "IfNotPresent")
                              ∷ ("ports", arr ((obj (("containerPort", num 3000) ∷ [])) ∷ []))
                              ∷ (
                                "resources",
                                obj (
                                    (
                                      "requests",
                                      obj (("cpu", str "10m") ∷ ("memory", str "70Mi") ∷ []),
                                    )
                                    ∷ (
                                      "limits",
                                      obj (("cpu", str "100m") ∷ ("memory", str "500Mi") ∷ []),
                                    )
                                    ∷ []),
                              )
                              ∷ []))
                            ∷ []),
                      )
                      ∷ ("serviceAccountName", str "default-editor")
                      ∷ []),
                )
                ∷ []),
          )
          ∷ []),
    )
    ∷ [])

unfoldable pub artifact_service : Value → Value
artifact_service namespace = obj (
    ("apiVersion", str "v1")
    ∷ ("kind", str "Service")
    ∷ (
      "metadata",
      obj (
          ("name", str "ml-pipeline-ui-artifact")
          ∷ ("namespace", namespace)
          ∷ ("labels", obj (("app", str "ml-pipeline-ui-artifact") ∷ []))
          ∷ []),
    )
    ∷ (
      "spec",
      obj (
          (
            "ports",
            arr (
                (obj (
                  ("name", str "http")
                  ∷ ("port", num 80)
                  ∷ ("protocol", str "TCP")
                  ∷ ("targetPort", num 3000)
                  ∷ []))
                ∷ []),
          )
          ∷ ("selector", obj (("app", str "ml-pipeline-ui-artifact") ∷ []))
          ∷ []),
    )
    ∷ [])
