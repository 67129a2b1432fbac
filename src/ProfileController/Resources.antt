-- ===== src/ProfileController/Resources.antt =====
-- The child resources that the controllers of apps/pipeline and apps/kfp-tekton have in common, as
-- they stand in `sync` (the lines are those of
-- apps/pipeline/upstream/base/installs/multi-user/pipelines-profile-controller/sync.py).
pub mod Artifact
use test_minio.Base.{String, Bool, true, false, [], ◌∷◌}
use test_minio.Base.Value.{Value, str, num, obj, arr}

-- disable_istio_sidecar and {"sidecar.istio.io/inject": "false"} or {}
unfoldable pub sidecar_annotations : Bool → Value
sidecar_annotations true = obj (("sidecar.istio.io/inject", str "false") ∷ [])
sidecar_annotations false = obj []

unfoldable pub metadata_grpc_configmap : Value → Value
metadata_grpc_configmap namespace = obj (
    ("apiVersion", str "v1")
    ∷ ("kind", str "ConfigMap")
    ∷ ("metadata", obj (("name", str "metadata-grpc-configmap") ∷ ("namespace", namespace) ∷ []))
    ∷ (
      "data",
      obj (
          ("METADATA_GRPC_SERVICE_HOST", str "metadata-grpc-service.kubeflow")
          ∷ ("METADATA_GRPC_SERVICE_PORT", str "8080")
          ∷ []),
    )
    ∷ [])

unfoldable pub visualization_deployment : String → Bool → Value → Value
visualization_deployment image disable_istio_sidecar namespace = obj (
    ("apiVersion", str "apps/v1")
    ∷ ("kind", str "Deployment")
    ∷ (
      "metadata",
      obj (
          ("labels", obj (("app", str "ml-pipeline-visualizationserver") ∷ []))
          ∷ ("name", str "ml-pipeline-visualizationserver")
          ∷ ("namespace", namespace)
          ∷ []),
    )
    ∷ (
      "spec",
      obj (
          (
            "selector",
            obj (("matchLabels", obj (("app", str "ml-pipeline-visualizationserver") ∷ [])) ∷ []),
          )
          ∷ (
            "template",
            obj (
                (
                  "metadata",
                  obj (
                      ("labels", obj (("app", str "ml-pipeline-visualizationserver") ∷ []))
                      ∷ ("annotations", sidecar_annotations disable_istio_sidecar)
                      ∷ []),
                )
                ∷ (
                  "spec",
                  obj (
                      (
                        "containers",
                        arr (
                            (obj (
                              ("image", str image)
                              ∷ ("imagePullPolicy", str "IfNotPresent")
                              ∷ ("name", str "ml-pipeline-visualizationserver")
                              ∷ ("ports", arr ((obj (("containerPort", num 8888) ∷ [])) ∷ []))
                              ∷ (
                                "resources",
                                obj (
                                    (
                                      "requests",
                                      obj (("cpu", str "50m") ∷ ("memory", str "200Mi") ∷ []),
                                    )
                                    ∷ (
                                      "limits",
                                      obj (("cpu", str "500m") ∷ ("memory", str "1Gi") ∷ []),
                                    )
                                    ∷ []),
                              )
                              ∷ []))
                            ∷ []),
                      )
                      ∷ ("serviceAccountName", str "default-editor")
                      ∷ []),
                )
                ∷ []),
          )
          ∷ []),
    )
    ∷ [])

unfoldable pub visualization_destination_rule : Value → Value
visualization_destination_rule namespace = obj (
    ("apiVersion", str "networking.istio.io/v1alpha3")
    ∷ ("kind", str "DestinationRule")
    ∷ (
      "metadata",
      obj (("name", str "ml-pipeline-visualizationserver") ∷ ("namespace", namespace) ∷ []),
    )
    ∷ (
      "spec",
      obj (
          ("host", str "ml-pipeline-visualizationserver")
          ∷ ("trafficPolicy", obj (("tls", obj (("mode", str "ISTIO_MUTUAL") ∷ [])) ∷ []))
          ∷ []),
    )
    ∷ [])

unfoldable pub visualization_authorization_policy : Value → Value
visualization_authorization_policy namespace = obj (
    ("apiVersion", str "security.istio.io/v1beta1")
    ∷ ("kind", str "AuthorizationPolicy")
    ∷ (
      "metadata",
      obj (("name", str "ml-pipeline-visualizationserver") ∷ ("namespace", namespace) ∷ []),
    )
    ∷ (
      "spec",
      obj (
          (
            "selector",
            obj (("matchLabels", obj (("app", str "ml-pipeline-visualizationserver") ∷ [])) ∷ []),
          )
          ∷ (
            "rules",
            arr (
                (obj (
                  (
                    "from",
                    arr (
                        (obj (
                          (
                            "source",
                            obj (
                                (
                                  "principals",
                                  arr ((str "cluster.local/ns/kubeflow/sa/ml-pipeline") ∷ []),
                                )
                                ∷ []),
                          )
                          ∷ []))
                        ∷ []),
                  )
                  ∷ []))
                ∷ []),
          )
          ∷ []),
    )
    ∷ [])

unfoldable pub visualization_service : Value → Value
visualization_service namespace = obj (
    ("apiVersion", str "v1")
    ∷ ("kind", str "Service")
    ∷ (
      "metadata",
      obj (("name", str "ml-pipeline-visualizationserver") ∷ ("namespace", namespace) ∷ []),
    )
    ∷ (
      "spec",
      obj (
          (
            "ports",
            arr (
                (obj (
                  ("name", str "http")
                  ∷ ("port", num 8888)
                  ∷ ("protocol", str "TCP")
                  ∷ ("targetPort", num 8888)
                  ∷ []))
                ∷ []),
          )
          ∷ ("selector", obj (("app", str "ml-pipeline-visualizationserver") ∷ []))
          ∷ []),
    )
    ∷ [])
