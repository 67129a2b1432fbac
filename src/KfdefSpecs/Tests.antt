-- ===== src/KfdefSpecs/Tests.antt =====
-- Runs of `build_specs` on a small repository, and the theorem at one.
use test_minio.Base.{
  String, arith, ◌==◌, ◌≡◌, refl, Bool, true, false, none, List, [], ◌∷◌, Result, ok, err,
  key_error, All, if◌then◌else◌, subst, sym, ap, ok-injective, IsUnique, elem,
}
use test_minio.Base.Value.{Value, Fields, end, str, obj, fields, dict, get_item}
use test_minio.Base.FilePath.{only_dots, ends_with_slash}
use test_minio.Host.{Host, write, run}
use test_minio.KfdefSpecs.{new_name, build_specs}
use test_minio.Host.Steps.{Steps}
use test_minio.Base.Text.Split.{Lacks}
use test_minio.KfdefSpecs.Written.{IsKfdefFile, DirBuilt, build_specs-Written}
use test_minio.KfdefSpecs.Unnamed.{HasUniqueMetadata, field_names}

abbrev metadata_fields : Fields
metadata_fields = fields (("name", str "kf") ∷ ("namespace", str "kubeflow") ∷ [])

abbrev kfdef_document : Value
kfdef_document = obj (("kind", str "KfDef") ∷ ("metadata", dict metadata_fields) ∷ [])

-- A repository with two versions, where kustomize writes one file.
abbrev repository : Host
repository = record {
  exists = λ s p. true;
  is_dir = λ s p. true;
  list_dir = λ s p. ok ("kfdef.apps.kubeflow.org_v1_kfdef_kfctl-aws.yaml" ∷ []);
  walk = λ s p. (p, "master" ∷ "v1.0" ∷ []) ∷ [];
  make_temp = λ s. ok "/tmp/a";
  check_output = λ s argv. ok "";
  load = λ s p. ok kfdef_document;
  perform = λ s a. ok tt;
}

abbrev unnamed_document : Value
unnamed_document =
    obj (("kind", str "KfDef") ∷ ("metadata", obj (("namespace", str "kubeflow") ∷ [])) ∷ [])

two_versions_built : build_specs repository "/r" [] ≡ (
  ok tt,
  write "/r/kfdef/kfctl_aws.v1.0.yaml" unnamed_document
      ∷ run ("kustomize" ∷ "build" ∷ "/r/kfdef/source/v1.0" ∷ "-o" ∷ "/tmp/a" ∷ []) none
      ∷ write "/r/kfdef/kfctl_aws.yaml" unnamed_document
      ∷ run ("kustomize" ∷ "build" ∷ "/r/kfdef/source/master" ∷ "-o" ∷ "/tmp/a" ∷ []) none
      ∷ [],
)
unfolding build_specs
two_versions_built = refl

-- The hyphens of a version are replaced, too.
new_name_of_branch :
    new_name "v1-branch" "kfdef.apps.kubeflow.org_v1_kfdef_kfctl-aws.yaml"
    ≡ "kfctl_aws.v1_branch.yaml"
unfolding new_name
new_name_of_branch = refl

kfdef_document-HasUniqueMetadata : HasUniqueMetadata kfdef_document
unfolding get_item field_names elem test_minio.Base.Value.find
kfdef_document-HasUniqueMetadata d h =
    subst (λ x. IsUnique (field_names x))
      (ap (λ v. elim v [ dict x ↦ x | _ ↦ end ]) (ok-injective (dict metadata_fields) (dict d) h))
      (refl, (refl, tt))

kfctl_aws-IsKfdefFile : IsKfdefFile "kfdef.apps.kubeflow.org_v1_kfdef_kfctl-aws.yaml"
unfolding only_dots
kfctl_aws-IsKfdefFile = ("kfctl-aws", lacks, refl, refl)
  where
    lacks : Lacks b'/' "kfctl-aws"
    lacks = grind arith

build_specs-Written_example :
    Steps
      (DirBuilt repository "/r")
      (("/r/kfdef/source", "master" ∷ "v1.0" ∷ []) ∷ [])
      []
      (build_specs repository "/r" []).1
unfolding ends_with_slash build_specs
build_specs-Written_example =
    build_specs-Written repository "/r"
      (λ s p v h.
        subst HasUniqueMetadata (ok-injective kfdef_document v h) kfdef_document-HasUniqueMetadata)
      (refl, refl)
      (λ s source temp_dir fs h.
        subst (All IsKfdefFile)
          (ok-injective ("kfdef.apps.kubeflow.org_v1_kfdef_kfctl-aws.yaml" ∷ []) fs h)
          (kfctl_aws-IsKfdefFile, tt))
      [] refl
