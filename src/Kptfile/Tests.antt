-- ===== src/Kptfile/Tests.antt =====
-- Runs of the methods, and the theorems at concrete commands and files.
use test_minio.Base.{String, ◌≡◌, refl, List, [], ◌∷◌, ok, All, lookup, insert}
use test_minio.Base.Text.{contains, begins_with, rstrip, cut}
use test_minio.Base.FilePath.{path_join, splitext, ends_with_slash}
use test_minio.Kptfile.Creator.{create_subst_stacks, create_subst_mgmt}
use test_minio.Kptfile.Creator.Subst.{create_subst}
use test_minio.Kptfile.Scope.{
  effects, IsScoped, IsFilled, locations_, create_subst-IsScoped, create_subst-IsFilled,
}
use test_minio.Kptfile.Comments.{
  Store, strip_comments, strip_files, strip_file, strip_path, strip_lines,
}
use test_minio.Kptfile.Comments.Laws.{Present, IsStripped, yaml_paths, strip_comments-IsStripped}

create_subst-IsScoped_example :
    IsScoped [] (effects (create_subst "gcp"))
    × IsScoped [] (effects (create_subst_stacks "gcp"))
    × IsScoped [] (effects (create_subst_mgmt "gcp"))
create_subst-IsScoped_example = create_subst-IsScoped "gcp"

create_subst-IsFilled_example :
    IsFilled [] locations_ (effects (create_subst "gcp"))
    × IsFilled [] locations_ (effects (create_subst_stacks "gcp"))
create_subst-IsFilled_example = create_subst-IsFilled "gcp"

abbrev walk_ : List (String × List String)
walk_ = ("gcp", "a.yaml" ∷ "notes.md" ∷ []) ∷ []

abbrev store_ : Store
store_ =
    ("gcp/notes.md", "x # x-kustomize\n" ∷ [])
    ∷ ("gcp/a.yaml", "name: n # {\"x-kustomize\":{}}\n" ∷ "# x-kustomize\n" ∷ "a: b # c\n" ∷ [])
    ∷ []

yaml_of_walk : yaml_paths walk_ ≡ "gcp/a.yaml" ∷ []
unfolding yaml_paths splitext path_join ends_with_slash
yaml_of_walk = refl

runs :
    strip_comments walk_ store_
    ≡ ok (
        ("gcp/notes.md", "x # x-kustomize\n" ∷ [])
        ∷ ("gcp/a.yaml", "name: n\n" ∷ "# x-kustomize\n" ∷ "a: b # c\n" ∷ [])
        ∷ [])
unfolding strip_comments strip_files strip_file strip_path strip_lines splitext path_join
    ends_with_slash lookup insert contains begins_with rstrip cut
runs = refl

files_there : All (Present store_) (yaml_paths walk_)
unfolding yaml_paths splitext path_join ends_with_slash lookup
files_there =
    (("name: n # {\"x-kustomize\":{}}\n" ∷ "# x-kustomize\n" ∷ "a: b # c\n" ∷ [], refl), tt)

strip_comments-IsStripped_example :
    (store' : Store) × (strip_comments walk_ store_ ≡ ok store')
    × IsStripped (yaml_paths walk_) store_ store'
strip_comments-IsStripped_example = strip_comments-IsStripped walk_ store_ files_there
