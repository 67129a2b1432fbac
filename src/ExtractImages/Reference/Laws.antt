-- ===== src/ExtractImages/Reference/Laws.antt =====
-- The parts that `image_from_string` finds, and printing a reference.
use Prim.Native.Char.{char}
use text.Mathlib.TextLemmas.{nil-append, cons-append}
use test_minio.Base.{
  String, ◌≡◌, refl, some, ◌∙◌, ap, ◌<>◌, ok, ◌⊎◌, inl, inr, true, false, Bool-cases, arith,
}
use test_minio.Base.Text.{has_char, rsplit}
use test_minio.Base.Text.Split.{Lacks, Lacks-append}
use test_minio.Base.Text.Last.{
  rsplit-Parts, rsplit-append, has_char-Lacks, Lacks-has_char, has_char-append,
}
use test_minio.ExtractImages.Reference.{Image, with_tag, image_from_string}

-- name:tag, without a digest
abbrev pub Tagged : String → Image → Type 0
Tagged s img =
    (img.name <> ":" <> img.tag ≡ s) × (img.digest ≡ "") × Lacks b':' img.tag × Lacks b'@' s

-- name@digest, without a tag
abbrev pub Digested : String → Image → Type 0
Digested s img = (img.name <> "@" <> img.digest ≡ s) × (img.tag ≡ "") × Lacks b'@' img.digest

with_tag-colon : (s : String) → has_char b':' (with_tag s) ≡ true
unfolding with_tag
with_tag-colon s = elim (Bool-cases (has_char b':' s)) [
  | inl y ↦ rw y y
  | inr n ↦ rw n (has_char-append b':' s ":latest" (unfold has_char in refl))
]

colon : (t : String) → ":" <> t ≡ String.◌∷◌ (char b':' tt) t
colon t = rw (cons-append, nil-append) refl

at_sign : (t : String) → "@" <> t ≡ String.◌∷◌ (char b'@' tt) t
at_sign t = rw (cons-append, nil-append) refl

Lacks-colon : (t : String) → Lacks b'@' t → Lacks b'@' (":" <> t)
Lacks-colon t h = rw colon (λ e. absurd (ground arith), h)

has_char-colon : (t : String) → has_char b':' (":" <> t) ≡ true
unfolding has_char
has_char-colon t = rw colon refl

has_char-at_sign : (t : String) → has_char b'@' ("@" <> t) ≡ true
unfolding has_char
has_char-at_sign t = rw at_sign refl

module _ (s a b : String) where
  image_from_string-tagged :
      has_char b'@' (with_tag s) ≡ false
      → rsplit b':' (with_tag s) ≡ some (a, b)
      → image_from_string s ≡ ok (record { name = a; tag = b; digest = "" })
  unfolding image_from_string
  image_from_string-tagged n cut = rw (n, cut) refl

  image_from_string-digested :
      has_char b'@' (with_tag s) ≡ true
      → rsplit b'@' (with_tag s) ≡ some (a, b)
      → image_from_string s ≡ ok (record { name = a; tag = ""; digest = b })
  unfolding image_from_string
  image_from_string-digested y cut = rw (y, cut) refl

with_tag_keeps : (s : String) → has_char b':' s ≡ true → with_tag s ≡ s
unfolding with_tag
with_tag_keeps s h = rw h refl

with_tag_adds : (s : String) → has_char b':' s ≡ false → with_tag s ≡ s <> ":latest"
unfolding with_tag
with_tag_adds s h = rw h refl

-- image_from_string returns on every text, with a name and a tag or a name and a digest that spell
-- the text, completed by ":latest" where it has no colon, cut at the last separator.
pub image_from_string-with_tag :
    (s : String)
    → (img : Image) × (image_from_string s ≡ ok img)
      × (Tagged (with_tag s) img ⊎ Digested (with_tag s) img)
image_from_string-with_tag s = elim (Bool-cases (has_char b'@' (with_tag s))) [
  | inl y ↦
      let (a, b, cut, spelled, lacks) = rsplit-Parts (char b'@' tt) (with_tag s) y in
      (
        record { name = a; tag = ""; digest = b },
        image_from_string-digested s a b y cut,
        inr (ap (λ t. a <> t) (at_sign b) ∙ spelled, refl, lacks),
      )
  | inr n ↦
      let (a, b, cut, spelled, lacks) =
        rsplit-Parts (char b':' tt) (with_tag s) (with_tag-colon s) in
      (
        record { name = a; tag = b; digest = "" },
        image_from_string-tagged s a b n cut,
        inl (ap (λ t. a <> t) (colon b) ∙ spelled, refl, lacks, has_char-Lacks b'@' (with_tag s) n),
      )
]

-- the references with a tag, those with a digest of some algorithm, and the bare names
pub data Shape : Type 0 where
  tagged digested : String → String → Shape
  bare : String → Shape

abbrev pub print : Shape → String
print (tagged name tag) = name <> ":" <> tag
print (digested name digest) = name <> "@" <> digest
print (bare name) = name

abbrev pub image : Shape → Image
image (tagged name tag) = record { name = name; tag = tag; digest = "" }
image (digested name digest) = record { name = name; tag = ""; digest = digest }
image (bare name) = record { name = name; tag = "latest"; digest = "" }

abbrev pub IsShape : Shape → Type 0
IsShape (tagged name tag) = Lacks b'@' name × Lacks b'@' tag × Lacks b':' tag
IsShape (digested name digest) = Lacks b'@' digest × (has_char b':' digest ≡ true)
IsShape (bare name) = Lacks b'@' name × Lacks b':' name

-- a text that ends with a colon and a tag, and one that ends with "@" and a digest
cut_tag :
    (s name tag : String)
    → with_tag s ≡ name <> ":" <> tag
    → Lacks b'@' name
    → Lacks b'@' tag
    → Lacks b':' tag
    → image_from_string s ≡ ok (record { name = name; tag = tag; digest = "" })
cut_tag s name tag e h1 h2 h3 =
    image_from_string-tagged s name tag
      (rw e (
        Lacks-has_char b'@' (name <> ":" <> tag)
          (Lacks-append b'@' name (":" <> tag) h1 (Lacks-colon tag h2))))
      (rw (e, colon) (rsplit-append (char b':' tt) name tag h3))

cut_digest :
    (name digest : String)
    → Lacks b'@' digest
    → has_char b':' digest ≡ true
    → image_from_string (name <> "@" <> digest)
      ≡ ok (record { name = name; tag = ""; digest = digest })
cut_digest name digest h1 h2 =
    let e =
      with_tag_keeps (name <> "@" <> digest)
        (has_char-append b':' name ("@" <> digest) (has_char-append b':' "@" digest h2)) in
    image_from_string-digested (name <> "@" <> digest) name digest
      (rw e (has_char-append b'@' name ("@" <> digest) (has_char-at_sign digest)))
      (rw (e, at_sign) (rsplit-append (char b'@' tt) name digest h1))

-- A reference name:tag (no "@", no colon in the tag), name@digest (a colon and no "@" in the
-- digest) or a bare name without both is read as its parts, the bare one with the tag latest.
pub image_from_string-print : (r : Shape) → IsShape r → image_from_string (print r) ≡ ok (image r)
image_from_string-print (tagged name tag) h =
    cut_tag (name <> ":" <> tag) name tag
      (with_tag_keeps (name <> ":" <> tag)
        (has_char-append b':' name (":" <> tag) (has_char-colon tag)))
      h.0 h.1 h.2
image_from_string-print (digested name digest) h = cut_digest name digest h.0 h.1
image_from_string-print (bare name) h =
    cut_tag name name "latest" (with_tag_adds name (Lacks-has_char b':' name h.1) ∙ refl) h.0
      (has_char-Lacks b'@' "latest" (unfold has_char in refl))
      (has_char-Lacks b':' "latest" (unfold has_char in refl))
