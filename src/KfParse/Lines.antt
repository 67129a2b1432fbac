-- ===== src/KfParse/Lines.antt =====
-- `find_images` and `txt_images`: files by their lines.
use Prim.Native.Char.{Char, code, char}
use text.Mathlib.TextLemmas.{nil-append, cons-append, append-nil, append_assoc}
use mathlib.Core.List
use test_minio.Base.{
  ◌≡◌, refl, sym, ◌∙◌, ap, ◌++◌, All, String, true, false, List, [], ◌∷◌, ◌<>◌, ◌==◌, if◌then◌else◌,
  Result, ok, err, index_error, ◌>>=◌,
}
use test_minio.Base.Text.{contains, is_space, char_text}

-- The lines that are printed, of which the number is printed at the end.
unfoldable pub find_images : List String → List String
find_images [] = []
find_images (l ∷ lines) = if contains "image" l then l ∷ find_images lines else find_images lines

abbrev word : String → List String → List String
word acc rest = if acc == "" then rest else acc ∷ rest

-- s.split(), with what has been read of a word
pub words : String → String → List String
unfolding is_space
words acc String.[] = word acc []
words acc (String.◌∷◌ c s) = elim (is_space (code c)) [
  | true ↦ word acc (words "" s)
  | false ↦ words (acc <> char_text c) s
]

-- one line: `arr[1]` of a line that is not blank
pub add_image : List String → List String → Result (List String)
add_image imgs [] = ok imgs
add_image imgs (a ∷ []) = err index_error
add_image imgs (a ∷ b ∷ arr) = ok (imgs ++ b ∷ [])

-- the loop over the lines
unfoldable pub read_lines : List String → List String → Result (List String)
unfolding words add_image
read_lines imgs [] = ok imgs
read_lines imgs (ln ∷ img) = do next ← add_image imgs (words "" ln); read_lines next img

unfoldable pub txt_images : List String → Result (List String)
txt_images lines = read_lines [] lines

-- no white space, and something
abbrev pub NoSpace : String → Type 0
NoSpace String.[] = Unit
NoSpace (String.◌∷◌ c s) = (is_space (code c) ≡ false) × NoSpace s

abbrev pub IsWord : String → Type 0
IsWord w = NoSpace w × (w == "" ≡ false)

module _ (acc : String) (c : Char) (s : String) where
  words_space : is_space (code c) ≡ true → words acc (String.◌∷◌ c s) ≡ word acc (words "" s)
  unfolding words
  words_space e = rw (words, e) refl

  words_char : is_space (code c) ≡ false → words acc (String.◌∷◌ c s) ≡ words (acc <> char_text c) s
  unfolding words
  words_char e = rw (words, e) refl

words-append :
    (acc w : String) (c : Char) (s : String)
    → NoSpace w
    → is_space (code c) ≡ true
    → words acc (w <> String.◌∷◌ c s) ≡ word (acc <> w) (words "" s)
words-append acc String.[] c s h e = rw (nil-append, append-nil) (words_space acc c s e)
words-append acc (String.◌∷◌ d w) c s h e =
    rw cons-append (words_char acc d (w <> String.◌∷◌ c s) h.0)
    ∙ words-append (acc <> char_text d) w c s h.1 e
    ∙ ap (λ x. word x (words "" s))
        (append_assoc acc (char_text d) w ∙ rw (cons-append, nil-append) refl)

-- A line of two words, as `docker images` and the like print them.
abbrev pub line_of : String × String → String
line_of (name, img) = name <> (" " <> (img <> "\n"))

abbrev pub lines_of : List (String × String) → List String
lines_of [] = []
lines_of (p ∷ ps) = line_of p ∷ lines_of ps

abbrev pub images_of : List (String × String) → List String
images_of [] = []
images_of ((name, img) ∷ ps) = img ∷ images_of ps

blank : (s : String) → " " <> s ≡ String.◌∷◌ (char b' ' tt) s
blank s = rw (cons-append, nil-append) refl

words-IsWord :
    (w : String) (c : Char) (s : String)
    → IsWord w
    → is_space (code c) ≡ true
    → words "" (w <> String.◌∷◌ c s) ≡ w ∷ words "" s
words-IsWord w c s h e = words-append "" w c s h.0 e ∙ rw (nil-append, h.1) refl

words_end : words "" "" ≡ []
unfolding words
words_end = refl

words-line_of :
    (name img : String)
    → IsWord name
    → IsWord img
    → words "" (line_of (name, img)) ≡ name ∷ img ∷ []
words-line_of name img h k =
    rw blank (words-IsWord name (char b' ' tt) (img <> "\n") h (unfold is_space in refl))
    ∙ ap (name ∷◌)
        (words-IsWord img (char b'\n' tt) "" k (unfold is_space in refl) ∙ ap (img ∷◌) words_end)

abbrev pub AreWords : String × String → Type 0
AreWords (name, img) = IsWord name × IsWord img

read_lines-lines_of :
    (imgs : List String) (ps : List (String × String))
    → All AreWords ps
    → read_lines imgs (lines_of ps) ≡ ok (imgs ++ images_of ps)
unfolding read_lines
read_lines-lines_of imgs [] h = ap ok (sym (List.append-nil imgs))
read_lines-lines_of imgs ((name, img) ∷ ps) h =
    ap (λ ws. add_image imgs ws >>= λ next. read_lines next (lines_of ps))
      (words-line_of name img h.0.0 h.0.1)
    ∙ read_lines-lines_of (imgs ++ img ∷ []) ps h.1
    ∙ ap ok (List.append_assoc imgs (img ∷ []) (images_of ps))

pub txt_images-lines_of :
    (ps : List (String × String)) → All AreWords ps → txt_images (lines_of ps) ≡ ok (images_of ps)
txt_images-lines_of ps h = unfold txt_images in read_lines-lines_of [] ps h
