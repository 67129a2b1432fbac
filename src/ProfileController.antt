-- ===== src/ProfileController.antt =====
-- The pipelines profile controllers: metacontroller webhooks that give each profile namespace its
-- pipeline resources. There are three copies of `sync.py`:
-- apps/pipeline/upstream/base/installs/multi-user/pipelines-profile-controller/sync.py (Pipeline),
-- apps/kfp-tekton/upstream/base/installs/multi-user/pipelines-profile-controller/sync.py (Tekton) and
-- distributions/stacks/openshift/application/pipeline/sync.py (Openshift). This file holds what
-- they share, as it stands in the first. Parsing and printing JSON are parameters (`loads` and
-- `dumps`), and the HTTP server is left out.
mod Tests
pub mod Resources
pub mod Pipeline
pub mod Tekton
pub mod Openshift
pub mod Status
pub mod Identity
pub mod Credentials
use test_minio.Base.{
  ℕ, String, Bool, true, false, Option, none, some, List, [], ◌∷◌, Result, ok, err, key_error,
  type_error, ◌>>=◌, Dict, lookup, ◌==◌, ◌=ℕ=◌, if◌then◌else◌,
}
use test_minio.Base.Value.{Value, null, str, arr, obj, get_or, get_item, len}
use test_minio.Base64.{b64encode_utf8}

-- os.environ[key]
pub setting : Dict String → String → Result String
setting environ key = elim (lookup key environ) [ none ↦ err key_error | some v ↦ ok v ]

-- base64.b64encode(bytes(os.environ.get(key), 'utf-8')).decode('utf-8'); `bytes` of `None` raises
pub encoded_setting : Dict String → String → Result String
encoded_setting environ key = elim (lookup key environ) [
  | none ↦ err type_error
  | some v ↦ b64encode_utf8 v
]

-- os.environ.get(key) == "true"
pub flag : Dict String → String → Bool
flag environ key = elim (lookup key environ) [ none ↦ false | some v ↦ v == "true" ]

-- parent.get("metadata", {}).get("labels", {}).get(key)
pub label : String → Value → Result Value
label key parent = do
  metadata ← get_or parent "metadata" (obj [])
  labels ← get_or metadata "labels" (obj [])
  get_or labels key null

-- the answer for a namespace where pipelines are not enabled
abbrev pub disabled : Value
disabled = obj (("status", obj []) ∷ ("children", arr []) ∷ [])

-- len(children[key])
pub child_count : Value → String → Result ℕ
child_count children key = do found ← get_item children key; len found

-- The conjunction of the tests `len(children[key]) == n`, which stops at the first that fails.
pub all_counts : List (String × ℕ) → Value → Result Bool
all_counts [] children = ok true
all_counts ((key, n) ∷ rest) children = elim (child_count children key) [
  | err e ↦ err e
  | ok found ↦ elim (found =ℕ= n) [ true ↦ all_counts rest children | false ↦ ok false ]
]

abbrev pub ready_text : Bool → String
ready_text ready = if ready then "True" else "False"

abbrev pub response : Bool → List Value → Value
response ready resources = obj (
    ("status", obj (("kubeflow-pipelines-ready", str (ready_text ready)) ∷ []))
    ∷ ("children", arr resources)
    ∷ [])

-- The rest of `sync` where pipelines are enabled: the status, the namespace, the resources.
pub enabled_response : List (String × ℕ) → (Value → List Value) → Value → Value → Result Value
enabled_response expected desired parent children = do
  ready ← all_counts expected children
  metadata ← get_or parent "metadata" (obj [])
  namespace ← get_or metadata "name" null
  ok (response ready (desired namespace))

-- `do_POST`: the status, the content type and the body of the answer. `body` is what `rfile.read`
-- gives for the length in the header.
pub record HttpResponse : Type 0 where
  pub status : ℕ
  pub content_type : String
  pub body : String

module _ (loads : String → Result Value) (dumps : Value → String) where
  pub do_post : (Value → Value → Result Value) → String → Result HttpResponse
  do_post sync body = do
    observed ← loads body
    parent ← get_item observed "parent"
    children ← get_item observed "children"
    desired ← sync parent children
    ok (record { status = 200; content_type = "application/json"; body = dumps desired })
