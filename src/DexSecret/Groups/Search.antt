-- ===== src/DexSecret/Groups/Search.antt =====
-- What the group search is, for groups written `cn,root` and joined by `::::`.
use text.Mathlib.TextLemmas.{append_assoc, append-nil}
use test_minio.Base.{
  String, ◌≡◌, refl, List, [], ◌∷◌, map, ◌<>◌, ok, ◌==◌, All, ◌∙◌, sym, arith, ap, if◌then◌else◌,
}
use test_minio.Base.Text.{split}
use test_minio.Base.Text.Split.{
  Lacks, Lacks-append, join, split-join, contains-append, contains-Lacks,
}
use test_minio.DexSecret.Groups.{at, find_base_dn, filter_loop, group_search}

-- A group: the first two parts of its DN.
pub record Group : Type 0 where
  pub cn : String
  pub root : String

abbrev pub spell : Group → String
spell g = g.cn <> ("," <> g.root)

-- Neither part holds a comma or a colon.
pub record IsPlain (g : Group) : Type 0 where
  pub cn_comma : Lacks b',' g.cn
  pub cn_colon : Lacks b':' g.cn
  pub root_comma : Lacks b',' g.root
  pub root_colon : Lacks b':' g.root

-- the first root that is not "none"
pub first_root : List Group → String
first_root [] = "none"
first_root (g ∷ gs) = if g.root == "none" then first_root gs else g.root

-- the alternatives of the filter, each in parentheses
pub alternatives : List Group → String
alternatives [] = ""
alternatives (g ∷ gs) = "(" <> (g.cn <> (")" <> alternatives gs))

split-spell : (g : Group) → IsPlain g → split (spell g) "," ≡ g.cn ∷ g.root ∷ []
split-spell g h =
    ap (λ r. split (g.cn <> ("," <> r)) ",") (sym (append-nil g.root))
    ∙ split-join "," "" g.cn (g.root ∷ []) h.cn_comma (h.root_comma, tt)

spell-Lacks : (g : Group) → IsPlain g → Lacks b':' (spell g)
spell-Lacks g h =
    Lacks-append b':' g.cn _ h.cn_colon (Lacks-append b':' "," g.root (omega arith) h.root_colon)

spells-Lacks : (gs : List Group) → All IsPlain gs → All (Lacks b':') (map spell gs)
spells-Lacks [] h = tt
spells-Lacks (g ∷ gs) h = (spell-Lacks g h.0, spells-Lacks gs h.1)

find_base_dn-spell :
    (gs : List Group) → All IsPlain gs → find_base_dn (map spell gs) ≡ ok (first_root gs)
unfolding find_base_dn first_root at
find_base_dn-spell [] h = refl
find_base_dn-spell (g ∷ gs) h =
    rw (split-spell g h.0, find_base_dn) (ground (arith, find_base_dn-spell gs h.1))

filter_loop-spell :
    (gs : List Group) (f : String)
    → All IsPlain gs
    → filter_loop f (map spell gs) ≡ ok (f <> alternatives gs)
unfolding filter_loop alternatives at
filter_loop-spell [] f h = rw append-nil
filter_loop-spell (g ∷ gs) f h =
    rw (split-spell g h.0, filter_loop) (filter_loop-spell gs _ h.1 ∙ simp append_assoc)

-- For two or more groups written cn,root without further commas or colons and joined by "::::",
-- the group search has the first root that is not "none" (or "none") as its base DN, and a filter
-- that lists each cn in parentheses.
pub group_search-join :
    (g k : Group) (gs : List Group)
    → All IsPlain (g ∷ k ∷ gs)
    → group_search (join "::::" (map spell (g ∷ k ∷ gs)))
      ≡ ok (record {
        base_dn = first_root (g ∷ k ∷ gs);
        filter = ("\"(|" <> alternatives (g ∷ k ∷ gs)) <> ")\"";
      })
unfolding group_search
group_search-join g k gs h = rw (contains-append ":" ":::" (spell g) _) (
    rw
      (split-join ":" ":::" (spell g) (map spell (k ∷ gs)) (spell-Lacks g h.0)
        (spells-Lacks (k ∷ gs) h.1))
      (rw (find_base_dn-spell (g ∷ k ∷ gs) h) (rw (filter_loop-spell (g ∷ k ∷ gs) _ h))))

-- For one group written cn,root without further commas or colons, the base DN is the root and the
-- filter the cn in parentheses and quotes.
pub group_search-spell :
    (g : Group)
    → IsPlain g
    → group_search (spell g) ≡ ok (record { base_dn = g.root; filter = "\"(" <> g.cn <> ")\"" })
unfolding group_search at
group_search-spell g h =
    rw (contains-Lacks ":" ":::" (spell g) (spell-Lacks g h)) (rw (split-spell g h))
