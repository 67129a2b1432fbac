-- ===== src/ExtractImages/Tests.antt =====
-- Runs of the scan, and the theorems at concrete documents.
use test_minio.Base.{
  IsUnique, true, ◌↔◌, String, ◌≡◌, refl, List, [], ◌∷◌, ok, some, ◌⊎◌, elem, ◌++◌,
}
use test_minio.Base.Text.{has_char, rsplit, lower, lower_char, ends_with, chr}
use test_minio.Base.Text.Last.{has_char-Lacks}
use test_minio.Base.FilePath.{path_join, ends_with_slash}
use test_minio.Base.Value.{
  iterate, Value, Fields, str, dict, arr, obj, fields, end, find, get_path, get_item, get_or, put,
  is_text,
}
use test_minio.ExtractImages.{
  File, scan_kustomization_for_images, scan_files, scan_resources, scan_resource, scan_workload,
  scan_containers, scan_container, containers_of, image_of, kind_of, is_resource_file, image_list,
}
use test_minio.ExtractImages.Reference.{Image, with_tag, image_from_string}
use test_minio.ExtractImages.Reference.Laws.{
  Tagged, Digested, tagged, image_from_string-with_tag, image_from_string-print,
}
use test_minio.ExtractImages.Images.{append_or_update, kust_img, update, keep_or_set}
use test_minio.ExtractImages.Dirs.{
  kustomization_dirs, check_kustomize_dir, Dir, dir, folder, end as no_more, get_kustomization_dirs,
  folder_names, open_folder,
}
use test_minio.ExtractImages.Again.{scan_kustomization_for_images_again}
use test_minio.ExtractImages.Names.{HasNames, scan_files-HasNames}
use test_minio.ExtractImages.Reached.{Reached, get_kustomization_dirs-Reached}
use test_minio.ExtractImages.Daemons.{scan_resource-daemonset}

image_from_string-with_tag_example :
    (img : Image) × (image_from_string "minio/mc" ≡ ok img)
    × (Tagged (with_tag "minio/mc") img ⊎ Digested (with_tag "minio/mc") img)
image_from_string-with_tag_example = image_from_string-with_tag "minio/mc"

-- The port of a registry is taken for a tag.
image_from_string-print_example :
    image_from_string "reg:80/a" ≡ ok (record { name = "reg"; tag = "80/a"; digest = "" })
image_from_string-print_example = image_from_string-print (tagged "reg" "80/a") (
  has_char-Lacks b'@' "reg" (unfold has_char in refl),
  has_char-Lacks b'@' "80/a" (unfold has_char in refl),
  has_char-Lacks b':' "80/a" (unfold has_char in refl),
)

abbrev workload : String → List Value → Value
workload kind containers = obj (
    ("kind", str kind)
    ∷ (
      "spec",
      obj (("template", obj (("spec", obj (("containers", arr containers) ∷ [])) ∷ [])) ∷ []),
    )
    ∷ [])

abbrev files_ : List File
files_ =
    ("params.yaml", ok [])
    ∷ (
      "deployment.yaml",
      ok (
          workload "Deployment"
            (obj (("image", str "mc:v2") ∷ []) ∷ obj [] ∷ obj (("image", str "mc:v3") ∷ []) ∷ [])
          ∷ []),
    )
    ∷ []

abbrev written_ : Fields
written_ = fields (
    (
      "images",
      arr (obj (("name", str "mc") ∷ ("newName", str "mc") ∷ ("newTag", str "v2") ∷ []) ∷ []),
    )
    ∷ [])

run : scan_kustomization_for_images end files_ ≡ ok (some written_)
unfolding scan_kustomization_for_images image_list scan_files is_resource_file ends_with
    scan_resources scan_resource kind_of find lower lower_char scan_workload containers_of get_path
    get_item iterate scan_containers scan_container image_of image_from_string with_tag has_char
    rsplit append_or_update kust_img put is_text update keep_or_set elem chr get_or
run = refl

scan_kustomization_for_images_again_example :
    scan_kustomization_for_images written_ files_ ≡ ok (some written_)
scan_kustomization_for_images_again_example =
    scan_kustomization_for_images_again end written_ files_ run

abbrev start : List Value
start = obj (("name", str "proxy") ∷ []) ∷ []

abbrev scanned : List Value
scanned =
    obj (("name", str "proxy") ∷ [])
    ∷ obj (("name", str "mc") ∷ ("newName", str "mc") ∷ ("newTag", str "v2") ∷ [])
    ∷ []

run_files : scan_files start files_ ≡ ok scanned
unfolding scan_files is_resource_file ends_with scan_resources scan_resource kind_of find lower
    lower_char scan_workload containers_of get_path get_item iterate scan_containers scan_container
    image_of image_from_string with_tag has_char rsplit append_or_update kust_img put is_text update
    keep_or_set elem chr
run_files = refl

scan_files-HasNames_example :
    (more : List String) × HasNames scanned (("proxy" ∷ []) ++ more)
    × (IsUnique ("proxy" ∷ []) → IsUnique (("proxy" ∷ []) ++ more))
scan_files-HasNames_example =
    scan_files-HasNames files_ start scanned ("proxy" ∷ []) (unfold find in refl, tt) run_files

abbrev daemon : Fields
daemon = fields (
    ("kind", str "DaemonSet")
    ∷ (
      "spec",
      obj (
          (
            "template",
            obj (
                ("spec", obj (("containers", arr (obj (("image", str "mc:v2") ∷ []) ∷ [])) ∷ []))
                ∷ []),
          )
          ∷ []),
    )
    ∷ [])

scan_resource-daemonset_example : scan_resource [] (dict daemon) ≡ ok []
scan_resource-daemonset_example =
    scan_resource-daemonset [] daemon "DaemonSet" (unfold find in refl)
      (unfold lower lower_char chr in refl)

-- The folders of a repository: a package with a base, one with overlays, and one that is left out.
abbrev repository : Dir
repository = dir (
    folder "docs" (dir (folder "base" (dir no_more) no_more)) (
      folder "minio" (dir (folder "base" (dir no_more) no_more)) (
        folder "dex"
          (dir (
            folder "base" (dir no_more)
              (folder "overlays" (dir (folder "ldap" (dir no_more) no_more)) no_more)))
          no_more)))

found_dirs :
    get_kustomization_dirs "/r" repository
    ≡ "/r/minio/base" ∷ "/r/dex/base" ∷ "/r/dex/overlays/ldap" ∷ []
unfolding get_kustomization_dirs kustomization_dirs check_kustomize_dir path_join ends_with_slash
    elem folder_names open_folder
found_dirs = refl

get_kustomization_dirs-Reached_example :
    (elem "/r/minio/base" (get_kustomization_dirs "/r" repository) ≡ true)
    ↔ Reached "/r/minio/base" "/r" repository
get_kustomization_dirs-Reached_example =
    get_kustomization_dirs-Reached "/r" "/r/minio/base" repository
