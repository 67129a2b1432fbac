-- ===== src/ExtractImages/Again.antt =====
-- A second run over the same files.
use test_minio.Base.{
  String, ◌≡◌, refl, sym, ◌∙◌, ap, some, List, [], ◌∷◌, ok, ok_of_bind, ok-injective, subst, arith,
  ◌>>=◌, All,
}
use mathlib.Core.Option.{some-injective}
use test_minio.Base.Value.{
  Value, Fields, dict, arr, put, get_or, find-put_self, put-put, items, item_list,
}
use test_minio.ExtractImages.Reference.{Image}
use test_minio.ExtractImages.Images.{append_or_update}
use test_minio.ExtractImages.Images.Listed.{
  IsListed, append_or_update_listed, append_or_update-IsListed, IsListed-append_or_update,
}
use test_minio.ExtractImages.{
  File, scan_files, image_list, write_images, scan_kustomization_for_images,
}
use test_minio.ExtractImages.Scan.{append_all, scan_files-Adds}

IsListed-append_all :
    (old : Image) (images : List Image) (l l' : List Value)
    → IsListed old l
    → append_all l images ≡ ok l'
    → IsListed old l'
IsListed-append_all old [] l l' h e = subst (IsListed old) (ok-injective l l' e) h
IsListed-append_all old (new ∷ images) l l' h e =
    let (m, f, g) = ok_of_bind (append_or_update l new) (λ rest. append_all rest images) l' e in
    IsListed-append_all old images m l' (IsListed-append_or_update old new l m h f) g

append_all-IsListed :
    (images : List Image) (l l' : List Value)
    → append_all l images ≡ ok l'
    → All (λ new. IsListed new l') images
append_all-IsListed [] l l' e = tt
append_all-IsListed (new ∷ images) l l' e =
    let (m, f, g) = ok_of_bind (append_or_update l new) (λ rest. append_all rest images) l' e in
    (
      IsListed-append_all new images m l' (append_or_update-IsListed new l m f) g,
      append_all-IsListed images m l' g,
    )

append_all_listed :
    (images : List Image) (l : List Value)
    → All (λ new. IsListed new l) images
    → append_all l images ≡ ok l
append_all_listed [] l h = refl
append_all_listed (new ∷ images) l h =
    rw (append_or_update_listed new l h.0) (append_all_listed images l h.1)

-- What a scan has collected, it leaves as it is.
pub scan_files_again :
    (files : List File) (l l' : List Value)
    → scan_files l files ≡ ok l'
    → scan_files l' files ≡ ok l'
scan_files_again files l l' h =
    let (images, e) = scan_files-Adds files l l' h in
    e l' ∙ append_all_listed images l' (append_all-IsListed images l l' (sym (e l) ∙ h))

item_list-items : (l : List Value) → item_list (items l) ≡ l
unfolding item_list
item_list-items [] = refl
item_list-items (v ∷ l) = ap (v ∷◌) (item_list-items l)

get_or-put :
    (k : String) (v default : Value) (d : Fields) → get_or (dict (put k v d)) k default ≡ ok v
unfolding get_or
get_or-put k v default d = rw (find-put_self, get_or) refl

image_list-arr : (l : List Value) → image_list (arr l) ≡ ok l
unfolding image_list
image_list-arr l = ap ok (item_list-items l)

-- the kustomization with a list of images
abbrev pub with_images : Fields → List Value → Fields
with_images kustomization l = put "images" (arr l) kustomization

with_images_again :
    (kustomization : Fields) (d : Value) (l : List Value) (files : List File)
    → scan_files (d ∷ l) files ≡ ok (d ∷ l)
    → scan_kustomization_for_images (with_images kustomization (d ∷ l)) files
      ≡ ok (some (with_images kustomization (d ∷ l)))
unfolding scan_kustomization_for_images
with_images_again kustomization d l files h =
    rw (get_or-put "images" (arr (d ∷ l)) (arr []) kustomization) (
      rw (image_list-arr (d ∷ l))
        (rw h (ap (λ x. ok (some x)) (put-put "images" (arr (d ∷ l)) (arr (d ∷ l)) kustomization))))

written_again :
    (kustomization written : Fields) (l : List Value) (files : List File)
    → scan_files l files ≡ ok l
    → ok (write_images kustomization l) ≡ ok (some written)
    → scan_kustomization_for_images written files ≡ ok (some written)
written_again kustomization written [] files h e = absurd (ground arith)
written_again kustomization written (d ∷ l) files h e =
    subst (λ x. scan_kustomization_for_images x files ≡ ok (some x))
      (some-injective (with_images kustomization (d ∷ l)) written
        (ok-injective (some (with_images kustomization (d ∷ l))) (some written) e))
      (with_images_again kustomization d l files h)

-- A kustomization that the scan of some files has written is written as it is by a second scan of
-- the same files.
pub scan_kustomization_for_images_again :
    (kustomization written : Fields) (files : List File)
    → scan_kustomization_for_images kustomization files ≡ ok (some written)
    → scan_kustomization_for_images written files ≡ ok (some written)
unfolding scan_kustomization_for_images
scan_kustomization_for_images_again kustomization written files h =
    let scan = λ (l : List Value). scan_files l files >>= λ m. ok (write_images kustomization m) in
    let (images, e, h1) =
      ok_of_bind (get_or (dict kustomization) "images" (arr [])) (λ v. image_list v >>= scan)
        (some written) h in
    let (start, f, h2) = ok_of_bind (image_list images) scan (some written) h1 in
    let (l, g, h3) =
      ok_of_bind (scan_files start files) (λ m. ok (write_images kustomization m)) (some written)
        h2 in
    written_again kustomization written l files (scan_files_again files start l g) h3
