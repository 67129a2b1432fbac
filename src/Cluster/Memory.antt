-- ===== src/Cluster/Memory.antt =====
-- A cluster in memory, which keeps the data of its secrets by namespace and name: an instance of
-- the interface, for the tests.
use test_minio.Base.{
  String, ◌≡◌, refl, none, some, Option, ◌<>◌, Result, ok, err, api_exception, Dict, lookup, insert,
  lookup-insert, arith, eq_refl, ◌=ℕ=◌, if◌then◌else◌,
}
use test_minio.Cluster.{Cluster, IsLawful, Secret, NewSecret}

abbrev pub Store : Type 0
Store = Dict (Dict String)

abbrev path : String → String → String
path name namespace = namespace <> ("/" <> name)

abbrev found : Option (Dict String) → Result Secret
found none = err (api_exception 404)
found (some d) = ok (record { data_ = some d })

-- Creating what exists is a conflict.
abbrev create : Store → String → NewSecret → Result (Unit {0}) × Store
create s namespace body = elim (lookup (path body.name namespace) s) [
  | some d ↦ (err (api_exception 409), s)
  | none ↦ (ok tt, insert (path body.name namespace) body.content s)
]

abbrev pub memory : Cluster
memory = record {
  State = Store;
  read_namespaced_secret = λ s name namespace. found (lookup (path name namespace) s);
  error_text = λ status. if status =ℕ= 409 then "Conflict" else "Not found";
  create_namespaced_secret = create;
}

read-create :
    (s : Store) (namespace : String) (body : NewSecret) (o : Option (Dict String))
    → lookup (path body.name namespace) s ≡ o
    → (create s namespace body).0 ≡ ok tt
    → found (lookup (path body.name namespace) (create s namespace body).1)
      ≡ ok (record { data_ = some body.content })
read-create s namespace body none e h = rw (e, create) (rw lookup-insert (rw eq_refl))
read-create s namespace body (some d) e h = absurd (ground arith)

pub memory-IsLawful : IsLawful memory
memory-IsLawful = record {
  read-create = λ s namespace body h. read-create s namespace body _ refl h;
}
