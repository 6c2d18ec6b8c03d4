-- ===== src/Repository/Urls.antt =====
-- What the URL of a stored repository looks like (pkg/models/repository.go).
use content_sources_backend.Common.{
  ℕ, zero, suc, ◌≡◌, refl, ◌⊎◌, inl, inr, Bool, false, not, ◌&&◌, [], ◌∷◌, ◌++◌, Text, codes, arith,
  ◌==◌, if◌then◌else◌, text_eq, trim_right,
}
use content_sources_backend.Repository.{Repository, cleanup_url}

abbrev pub ends_in_slash : Text → Bool
ends_in_slash [] = false
ends_in_slash (c ∷ []) = c == 47
ends_in_slash (c ∷ d ∷ t) = ends_in_slash (d ∷ t)

trim_right-bare : (t : Text) → ends_in_slash (trim_right 47 t) ≡ false
unfolding trim_right text_eq
trim_right-bare [] = refl
trim_right-bare (c ∷ t) = kept (trim_right 47 t) (trim_right-bare t)
  where
    kept :
        (r : Text)
        → ends_in_slash r ≡ false
        → ends_in_slash (if (c == 47) && text_eq r [] then [] else c ∷ r) ≡ false
    kept [] h = ground arith
    kept (d ∷ r) h = ground arith

trim_right-slash :
    (t : Text) → ends_in_slash t ≡ false → text_eq t [] ≡ false → trim_right 47 (t ++ codes "/") ≡ t
unfolding trim_right text_eq
trim_right-slash [] h k = ground arith
trim_right-slash (c ∷ []) h k = ground arith
trim_right-slash (c ∷ d ∷ t) h k = rw (trim_right-slash (d ∷ t) h refl) (ground arith)

-- Empty, or with one slash at its end and no other before it.
pub IsClean : Text → Type 0
IsClean url =
    (url ≡ [])
    ⊎ ((bare : Text) × (url ≡ bare ++ codes "/")
        × (ends_in_slash bare ≡ false)
        × (text_eq bare [] ≡ false))

cleanup_url-IsClean : (trim_space : Text → Text) (url : Text) → IsClean (cleanup_url trim_space url)
unfolding cleanup_url IsClean text_eq
cleanup_url-IsClean trim_space url =
    shaped (trim_right 47 (trim_space url)) (trim_right-bare (trim_space url))
  where
    shaped :
        (bare : Text)
        → ends_in_slash bare ≡ false
        → IsClean (if not (text_eq bare []) then bare ++ codes "/" else bare)
    shaped [] h = inl refl
    shaped (c ∷ bare) h = inr (c ∷ bare, refl, h, refl)

cleanup_url-clean :
    (trim_space : Text → Text) (url : Text)
    → trim_space url ≡ url
    → IsClean url
    → cleanup_url trim_space url ≡ url
unfolding cleanup_url IsClean text_eq trim_right
cleanup_url-clean trim_space url same (inl e) = rw (same, e) refl
cleanup_url-clean trim_space url same (inr (bare, e, h, k)) =
    rw (same, e, trim_right-slash bare h k, k) refl

-- A cleaned URL that strings.TrimSpace leaves alone is left alone by a second cleaning.
pub cleanup_url-again :
    (trim_space : Text → Text) (url : Text)
    → trim_space (cleanup_url trim_space url) ≡ cleanup_url trim_space url
    → cleanup_url trim_space (cleanup_url trim_space url) ≡ cleanup_url trim_space url
cleanup_url-again trim_space url same =
    cleanup_url-clean trim_space (cleanup_url trim_space url) same
      (cleanup_url-IsClean trim_space url)

unfoldable pub slashes : ℕ → Text
slashes zero = []
slashes (suc n) = b'/' ∷ slashes n
