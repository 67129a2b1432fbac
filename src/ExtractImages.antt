-- ===== src/ExtractImages.antt =====
-- tests/scripts/extract_images.py: list the container images of the workloads below a directory in
-- the `images` of their kustomization.yaml. The image references stand in ExtractImages/Reference,
-- the list of images in ExtractImages/Images, the search for directories in ExtractImages/Dirs.
-- Parsing and printing YAML (ruamel.yaml) and reading files are parameters: a directory is given by
-- its parsed kustomization and its files, each with its documents.
pub mod Reference
pub mod Images
pub mod Dirs
mod Scan
mod Again
mod Names
mod Daemons
mod Reached
mod Tests
use Prim.Native.Char.{Char, char, code}
use test_minio.Base.{
  String, ℕ, ◌+◌, Bool, true, false, not, ◌&&◌, Option, none, some, List, [], ◌∷◌, map, Result, ok,
  err, key_error, type_error, attribute_error, ◌>>=◌, elem, ◌==◌, if◌then◌else◌, leb,
}
use test_minio.Base.Text.{lower, ends_with, char_text}
use test_minio.Base.Value.{
  Value, Items, Fields, null, bool, other, num, str, list, dict, nil, item, end, field, find, put,
  get_item, get_or, get_path, item_list, arr, iterate,
}
use Reference.{Image, image_from_string}
use Images.{append_or_update}

abbrev pub accepted_kinds : List String
accepted_kinds = "statefulset" ∷ "deployment" ∷ "daemonSet" ∷ "replicaset" ∷ "job" ∷ "cronjob" ∷ []

-- image_from_string(img_str), where only a text is a reference
pub image_of : Value → Result Image
image_of (str s) = image_from_string s
image_of _ = err type_error

-- try: v = r, except KeyError: continue with what there is
abbrev pub try_item {ℓ} : {A : Type ℓ} → Result Value → A → (Value → Result A) → Result A
try_item (ok v) old next = next v
try_item (err key_error) old next = ok old
try_item (err e) old next = err e

-- One container: `KeyError` goes on with the next.
pub scan_container : List Value → Value → Result (List Value)
scan_container img_list c =
    try_item (get_item c "image") img_list
      (λ img_str. do new_img ← image_of img_str; append_or_update img_list new_img)

pub scan_containers : List Value → List Value → Result (List Value)
scan_containers img_list [] = ok img_list
scan_containers img_list (c ∷ containers) = do
  l ← scan_container img_list c
  scan_containers l containers

-- r["spec"]["template"]["spec"]["containers"]
pub containers_of : Value → Result Value
containers_of = get_path ("spec" ∷ "template" ∷ "spec" ∷ "containers" ∷ [])

-- A workload without containers is passed over.
pub scan_workload : List Value → Value → Result (List Value)
scan_workload img_list r =
    try_item (containers_of r) img_list
      (λ v. do containers ← iterate v; scan_containers img_list containers)

-- r.get("kind", "").lower()
pub kind_of : Fields → Result String
unfolding lower
kind_of d = elim (find "kind" d) [
  | none ↦ ok ""
  | some (str kind) ↦ ok (lower kind)
  | some _ ↦ err attribute_error
]

-- One document: what is no mapping is passed over.
pub scan_resource : List Value → Value → Result (List Value)
scan_resource img_list (dict d) = do
  kind ← kind_of d
  if elem kind accepted_kinds then scan_workload img_list (dict d) else ok img_list
scan_resource img_list _ = ok img_list

pub scan_resources : List Value → List Value → Result (List Value)
scan_resources img_list [] = ok img_list
scan_resources img_list (r ∷ resources) = do
  l ← scan_resource img_list r
  scan_resources l resources

-- the filter on the names of the files
pub is_resource_file : String → Bool
unfolding ends_with
is_resource_file filename =
    not (filename == "kustomization.yaml")
    && not (filename == "params.yaml")
    && ends_with filename ".yaml"

-- A file: its name, and its documents or the error of loading them.
abbrev pub File : Type 0
File = String × Result (List Value)

pub scan_files : List Value → List File → Result (List Value)
scan_files img_list [] = ok img_list
scan_files img_list ((filename, documents) ∷ files) =
    if is_resource_file filename
    then (do resources ← documents; l ← scan_resources img_list resources; scan_files l files)
    else scan_files img_list files

-- The entries of `images`, which is a list in each kustomization.
pub image_list : Value → Result (List Value)
unfolding item_list
image_list (list vs) = ok (item_list vs)
image_list _ = err type_error

-- The kustomization to be written, where there are images.
abbrev pub write_images : Fields → List Value → Option Fields
write_images kustomization [] = none
write_images kustomization (d ∷ ds) = some (put "images" (arr (d ∷ ds)) kustomization)

pub scan_kustomization_for_images : Fields → List File → Result (Option Fields)
scan_kustomization_for_images kustomization files = do
  images ← get_or (dict kustomization) "images" (arr [])
  img_list ← image_list images
  l ← scan_files img_list files
  ok (write_images kustomization l)
