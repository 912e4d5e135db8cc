-- ===== src/Cli/Title.antt =====
-- The title that is made of a path or a URL.
use horizon_cast.Base.{
  ℕ, ◌≡◌, ◌≢◌, ◌⊎◌, append-nil, refl, ap, ◌∙◌, true, false, ◌||◌, Option, none, some, [], ◌∷◌, ◌++◌,
  arith,
}
use horizon_cast.Base.Text.{Text, first_part}
use horizon_cast.Base.Text.Cut.{Lacks, first_part-Lacks}
use horizon_cast.Net.Path.{rsplit_once}
use horizon_cast.Cli.{
  is_separator, has_separator, after_last, or_default, before_last_dot, without_query, media_title,
}

has_separator-append : (l r : Text) → has_separator (l ++ r) ≡ (has_separator l || has_separator r)
unfolding has_separator
has_separator-append [] r = refl
has_separator-append (c ∷ l) r = ground (arith, has_separator-append l r)

after_last_plain : (s : Text) → has_separator s ≡ false → after_last s ≡ s
unfolding after_last has_separator
after_last_plain [] h = refl
after_last_plain (c ∷ s) h = ground (arith, after_last_plain s)

after_last-append :
    (folder : Text) (sep : ℕ) (name : Text)
    → is_separator sep ≡ true
    → has_separator name ≡ false
    → after_last (folder ++ sep ∷ name) ≡ name
unfolding after_last has_separator
after_last-append [] sep name hs hn = ground arith
after_last-append (c ∷ folder) sep name hs hn =
    ground
      (arith, after_last-append folder sep name hs hn, has_separator-append folder (sep ∷ name))

rsplit_once-none : (sep : ℕ) (s : Text) → Lacks sep s → rsplit_once sep s ≡ none
unfolding rsplit_once
rsplit_once-none sep [] h = refl
rsplit_once-none sep (c ∷ s) h = ground (arith, rsplit_once-none sep s h.1)

rsplit_once-append :
    (sep : ℕ) (l r : Text) → Lacks sep r → rsplit_once sep (l ++ sep ∷ r) ≡ some (l, r)
unfolding rsplit_once
rsplit_once-append sep [] r h = ground (arith, rsplit_once-none sep r h)
rsplit_once-append sep (c ∷ l) r h = ground (arith, rsplit_once-append sep l r h)

or_default-ne-nil : (s : Text) → or_default s ≢ []
or_default-ne-nil [] = λ e. cc
or_default-ne-nil (c ∷ s) = λ e. cc

-- The title is never empty.
pub media_title-ne-nil : (media : Text) → media_title media ≢ []
unfolding media_title
media_title-ne-nil media =
    let name = after_last (without_query media) in
    or_default-ne-nil (before_last_dot name (rsplit_once b'.' name))

-- Nothing, or a query or fragment with its mark.
abbrev pub IsQuery : Text → Type 0
IsQuery [] = Unit
IsQuery (c ∷ s) = (c ≡ b'?') ⊎ (c ≡ b'#')

first_part-append_lacking :
    (sep : ℕ) (l r : Text) → Lacks sep l → first_part sep (l ++ r) ≡ l ++ first_part sep r
unfolding first_part
first_part-append_lacking sep [] r h = refl
first_part-append_lacking sep (c ∷ l) r h = ground (arith, first_part-append_lacking sep l r h.1)

without_query-append :
    (path query : Text)
    → Lacks b'?' path
    → Lacks b'#' path
    → IsQuery query
    → without_query (path ++ query) ≡ path
unfolding without_query
without_query-append path [] h h' q =
    rw (append-nil path, first_part-Lacks b'?' path h) (first_part-Lacks b'#' path h')
without_query-append path (c ∷ s) h h' q =
    let behind : first_part b'#' (first_part b'?' (c ∷ s)) ≡ [] =
      unfold first_part in ground arith in
    ap (first_part b'#') (first_part-append_lacking b'?' path (c ∷ s) h)
    ∙ first_part-append_lacking b'#' path (first_part b'?' (c ∷ s)) h'
    ∙ ap (λ (t : Text). path ++ t) behind
    ∙ append-nil path

-- A file name with a dot in a folder, whatever query or fragment follows the path, gives the part
-- before the last dot as the title.
pub media_title-path :
    (folder : Text) (sep : ℕ) (c : ℕ) (stem ext query : Text)
    → is_separator sep ≡ true
    → has_separator (c ∷ stem ++ b'.' ∷ ext) ≡ false
    → Lacks b'.' ext
    → Lacks b'?' (folder ++ sep ∷ (c ∷ stem ++ b'.' ∷ ext))
    → Lacks b'#' (folder ++ sep ∷ (c ∷ stem ++ b'.' ∷ ext))
    → IsQuery query
    → media_title ((folder ++ sep ∷ (c ∷ stem ++ b'.' ∷ ext)) ++ query) ≡ c ∷ stem
unfolding media_title
media_title-path folder sep c stem ext query hs hn he hq hf q =
    let name = c ∷ stem ++ b'.' ∷ ext in
    let found : after_last (without_query ((folder ++ sep ∷ name) ++ query)) ≡ name =
      ap after_last (without_query-append (folder ++ sep ∷ name) query hq hf q)
      ∙ after_last-append folder sep name hs hn in
    ap (λ (n : Text). or_default (before_last_dot n (rsplit_once b'.' n))) found
    ∙ ap (λ (o : Option (Text × Text)). or_default (before_last_dot name o))
        (rsplit_once-append b'.' (c ∷ stem) ext he)
