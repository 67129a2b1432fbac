-- ===== src/ProfileController/Credentials.antt =====
-- The credentials of the environment reach the desired secret, encoded.
use test_minio.Base.{
  String, ◌≡◌, refl, [], ◌∷◌, ok, ok_of_bind, Dict, lookup, some, ◌∙◌, sym, arith,
}
use test_minio.Base.Value.{Value, str, get_path, get_item, find}
use test_minio.Base64.{b64decode}
use test_minio.Base64.Codec.{IsAscii}
use test_minio.Base64.TextTrip.{b64decode_of_b64encode, b64encode_utf8-eq}
use test_minio.ProfileController.{setting, encoded_setting}
use test_minio.ProfileController.Pipeline

-- A setting that was encoded decodes to the variable it comes from.
encoded_setting-decodes :
    (environ : Dict String) (key v t : String)
    → lookup key environ ≡ some v
    → IsAscii v
    → encoded_setting environ key ≡ ok t
    → b64decode t ≡ ok v
unfolding encoded_setting
encoded_setting-decodes environ key v t e a h =
    b64decode_of_b64encode v t (sym (b64encode_utf8-eq v a) ∙ (rw (e, encoded_setting) at h))

-- The parameters of MinIO, each with its variable in the environment, its field in the secret and
-- its value in the settings.
pub data Parameter : Type 0 where
  access_key secret_key host port secure : Parameter

unfoldable pub variable : Parameter → String
variable access_key = "MINIO_ACCESS_KEY"
variable secret_key = "MINIO_SECRET_KEY"
variable host = "MINIO_HOST"
variable port = "MINIO_PORT"
variable secure = "MINIO_SECURE"

pub field_name : Parameter → String
field_name access_key = "accesskey"
field_name secret_key = "secretkey"
field_name host = "host"
field_name port = "port"
field_name secure = "secure"

value_in : Parameter → Pipeline.Settings → String
value_in access_key s = s.mlpipeline_minio_access_key
value_in secret_key s = s.mlpipeline_minio_secret_key
value_in host s = s.mlpipeline_minio_host
value_in port s = s.mlpipeline_minio_port
value_in secure s = s.mlpipeline_minio_secure

load_settings-value :
    (q : Parameter) (environ : Dict String) (settings : Pipeline.Settings)
    → Pipeline.load_settings environ ≡ ok settings
    → encoded_setting environ (variable q) ≡ ok (value_in q settings)
unfolding Pipeline.load_settings variable value_in
load_settings-value q environ settings h =
    let (version, _, h1) = ok_of_bind (setting environ "KFP_VERSION") _ settings h in
    let (a, ea, h2) = ok_of_bind (encoded_setting environ "MINIO_ACCESS_KEY") _ settings h1 in
    let (k, ek, h3) = ok_of_bind (encoded_setting environ "MINIO_SECRET_KEY") _ settings h2 in
    let (o, eo, h4) = ok_of_bind (encoded_setting environ "MINIO_HOST") _ settings h3 in
    let (p, ep, h5) = ok_of_bind (encoded_setting environ "MINIO_PORT") _ settings h4 in
    let (u, eu, h6) = ok_of_bind (encoded_setting environ "MINIO_SECURE") _ settings h5 in
    let (registry, _, h7) = ok_of_bind (setting environ "airgapRegistry") _ settings h6 in
    ground arith

minio_secret-field :
    (q : Parameter) (settings : Pipeline.Settings) (namespace : Value)
    → get_path ("data" ∷ field_name q ∷ []) (Pipeline.minio_secret settings namespace)
      ≡ ok (str (value_in q settings))
unfolding field_name value_in get_path get_item find Pipeline.minio_secret
minio_secret-field access_key settings namespace = refl
minio_secret-field secret_key settings namespace = refl
minio_secret-field _ settings namespace = refl

-- Where the settings of the controller of apps/pipeline load from the environment, each parameter
-- of MinIO that is an ASCII text stands in the desired secret in a form that decodes to the
-- variable of the environment.
pub minio_secret_decodes :
    (q : Parameter) (environ : Dict String) (settings : Pipeline.Settings) (namespace : Value)
    (v : String)
    → Pipeline.load_settings environ ≡ ok settings
    → lookup (variable q) environ ≡ some v
    → IsAscii v
    → (t : String) × (get_path
          ("data" ∷ field_name q ∷ [])
          (Pipeline.minio_secret settings namespace)
        ≡ ok (str t))
      × (b64decode t ≡ ok v)
minio_secret_decodes q environ settings namespace v h e a = (
  value_in q settings,
  minio_secret-field q settings namespace,
  encoded_setting-decodes environ (variable q) v _ e a (load_settings-value q environ settings h),
)
