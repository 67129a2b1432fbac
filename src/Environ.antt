-- ===== src/Environ.antt =====
-- `os.environ`, and the idiom `os.environ[k] if k in os.environ and os.environ[k] else default` of
-- the entry points in bootstrap/components/.
use test_minio.Base.{String, none, some, Dict, lookup, ◌==◌, if◌then◌else◌}

unfoldable pub env_or : Dict String → String → String → String
env_or environ k default = elim (lookup k environ) [
  | none ↦ default
  | some v ↦ if v == "" then default else v
]
