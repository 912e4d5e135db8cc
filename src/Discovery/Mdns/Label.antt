-- ===== src/Discovery/Mdns/Label.antt =====
-- The label of a full name.
use mathlib.Core.List.{reverse, reverse-append, reverse-reverse}
use horizon_cast.Base.{◌≡◌, refl, ap, ◌∙◌, some, [], ◌∷◌, ◌++◌}
use horizon_cast.Base.Text.{Text}
use horizon_cast.Base.Text.Cut.{strip_prefix-append}
use horizon_cast.Discovery.Mdns.{drop_dots, trim_dots, strip_suffix, instance_label}

strip_suffix-append : (s suffix : Text) → strip_suffix suffix (s ++ suffix) ≡ some s
strip_suffix-append s suffix =
    rw
      (reverse-append s suffix, strip_prefix-append (reverse suffix) (reverse s), reverse-reverse s)
      refl

drop_dot : (s : Text) → drop_dots (b'.' ∷ s) ≡ drop_dots s
unfolding drop_dots
drop_dot s = refl

trim_dots_dot : (s : Text) → trim_dots (s ++ b'.' ∷ []) ≡ trim_dots s
trim_dots_dot s = rw (reverse-append s (b'.' ∷ [])) (ap reverse (drop_dot (reverse s)))

-- The label that a service's full name begins with, before a dot and the service, is read back if
-- it does not end with a dot itself.
pub instance_label-append :
    (label service : Text)
    → trim_dots label ≡ label
    → instance_label ((label ++ b'.' ∷ []) ++ service) service ≡ label
unfolding instance_label
instance_label-append label service h =
    rw (strip_suffix-append (label ++ b'.' ∷ []) service)
      (ap trim_dots (trim_dots_dot label ∙ h) ∙ h)
