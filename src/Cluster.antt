-- ===== src/Cluster.antt =====
-- What the scripts use of the Kubernetes client (a third-party package): reading a secret and
-- creating one, over an unknown state of the cluster. Either may raise `ApiException` or anything
-- else. Both entry points of bootstrap/components/ are clients of this interface.
pub mod Memory
use test_minio.Base.{ℕ, String, ◌≡◌, Option, some, Result, ok, Dict}

-- `secret.data` is `None` where a secret has no data.
pub record Secret : Type 0 where
  pub data_ : Option (Dict String)

-- `client.V1Secret(metadata=..., type=..., data=...)`
pub record NewSecret : Type 0 where
  pub name : String
  pub secret_type : String
  pub content : Dict String

pub record Cluster : Type 1 where
  pub State : Type 0
  pub read_namespaced_secret : State → String → String → Result Secret
  -- str(err) of an `ApiException` with the status
  pub error_text : ℕ → String
  pub create_namespaced_secret : State → String → NewSecret → Result (Unit {0}) × State

-- What the scripts rely on: a secret that was created can be read, under its name, in its namespace.
pub record IsLawful (C : Cluster) : Type 0 where
  pub read-create :
      (s : C.State) (namespace : String) (body : NewSecret)
      → (C.create_namespaced_secret s namespace body).0 ≡ ok tt
      → C.read_namespaced_secret (C.create_namespaced_secret s namespace body).1 body.name namespace
        ≡ ok (record { data_ = some body.content })
