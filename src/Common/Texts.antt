-- ===== src/Common/Texts.antt =====
-- What Go's package strings does to texts of code points: ==, Split, Join, Trim and HasSuffix.
use Prim.Native.Nat.{ℕ}
use mathlib.Core.Path.{◌≡◌, refl}
use mathlib.Core.Logic.{◌↔◌}
use mathlib.Core.Bool.{Bool, true, false, ◌&&◌, ◌||◌}
use mathlib.Core.List.{List, [], ◌∷◌, ◌++◌}
use native.Mathlib.Omega.{arith}
use content_sources_backend.Common.Tests.{◌==◌, if◌then◌else◌}
use content_sources_backend.Common.Codes.{Text}

unfoldable pub text_eq : Text → Text → Bool
text_eq [] [] = true
text_eq [] (d ∷ t) = false
text_eq (c ∷ s) [] = false
text_eq (c ∷ s) (d ∷ t) = (c == d) && text_eq s t

pub text_eq_sound : (s t : Text) → text_eq s t ≡ true → s ≡ t
unfolding text_eq
text_eq_sound [] [] h = refl
text_eq_sound [] (d ∷ t) h = ground arith
text_eq_sound (c ∷ s) [] h = ground arith
text_eq_sound (c ∷ s) (d ∷ t) h = ground (arith, text_eq_sound s t)

pub text_eq_refl : (s : Text) → text_eq s s ≡ true
unfolding text_eq
text_eq_refl [] = refl
text_eq_refl (c ∷ s) = ground (arith, text_eq_refl s)

pub text_eq_iff : (s t : Text) → (text_eq s t ≡ true) ↔ (s ≡ t)
text_eq_iff s t = (text_eq_sound s t, λ e. grind (arith, text_eq_refl s, e))

-- Is the code point in the text?
unfoldable pub has_code : ℕ → Text → Bool
has_code c [] = false
has_code c (d ∷ t) = (d == c) || has_code c t

-- A code point before the first part.
abbrev pub onto_first : ℕ → List Text → List Text
onto_first c [] = (c ∷ []) ∷ []
onto_first c (part ∷ parts) = (c ∷ part) ∷ parts

-- Split at each occurrence of a code point.
unfoldable pub split : ℕ → Text → List Text
split sep [] = [] ∷ []
split sep (c ∷ t) = if c == sep then [] ∷ split sep t else onto_first c (split sep t)

unfoldable pub join : Text → List Text → Text
join sep [] = []
join sep (part ∷ []) = part
join sep (part ∷ next ∷ parts) = part ++ (sep ++ join sep (next ∷ parts))

unfoldable pub trim_left : ℕ → Text → Text
trim_left c [] = []
trim_left c (d ∷ t) = if d == c then trim_left c t else d ∷ t

unfoldable pub trim_right : ℕ → Text → Text
trim_right c [] = []
trim_right c (d ∷ t) =
    let rest = trim_right c t in if (d == c) && text_eq rest [] then [] else d ∷ rest

pub split-part :
    (sep : ℕ) (part t : Text)
    → has_code sep part ≡ false
    → split sep (part ++ (sep ∷ t)) ≡ part ∷ split sep t
unfolding split has_code
split-part sep [] t h = ground arith
split-part sep (c ∷ part) t h = ground (arith, split-part sep part t)

pub split-last : (sep : ℕ) (part : Text) → has_code sep part ≡ false → split sep part ≡ part ∷ []
unfolding split has_code
split-last sep [] h = refl
split-last sep (c ∷ part) h = ground (arith, split-last sep part)
