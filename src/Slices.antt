-- ===== src/Slices.antt =====
-- The functions on slices of pkg/utils/utils.go, over a type whose == is a parameter.
pub mod Laws
use content_sources_backend.Common.{
  ℕ, suc, ◌+◌, Bool, true, false, not, ◌==◌, Option, none, some, List, [], ◌∷◌, length,
  if◌then◌else◌,
}

module _ {T : Type 0} (eq : T → T → Bool) where
  unfoldable pub contains : List T → T → Bool
  contains [] v = false
  contains (s ∷ elems) v = if eq v s then true else contains elems v

  -- The loop of SlicesEqual, over slices of one length.
  unfoldable pub same_elements : List T → List T → Bool
  same_elements [] _ = true
  same_elements (x ∷ s1) [] = true
  same_elements (x ∷ s1) (y ∷ s2) = if eq x y then same_elements s1 s2 else false

  unfoldable pub slices_equal : List T → List T → Bool
  unfolding same_elements
  slices_equal s1 s2 = if not (length s1 == length s2) then false else same_elements s1 s2

  -- The set of the elements of s2 is the list of them.
  unfoldable pub subtract_slices : List T → List T → List T
  unfolding contains
  subtract_slices [] s2 = []
  subtract_slices (elem ∷ s1) s2 =
      let rest = subtract_slices s1 s2 in if not (contains s2 elem) then elem ∷ rest else rest

  unfoldable pub at_indexes_from : ℕ → List T → T → List ℕ
  at_indexes_from i [] v = []
  at_indexes_from i (s ∷ elems) v =
      let rest = at_indexes_from (suc i) elems v in if eq s v then i ∷ rest else rest

  unfoldable pub at_indexes : List T → T → List ℕ
  unfolding at_indexes_from
  at_indexes elems v = at_indexes_from 0 elems v

  unfoldable pub contains_any : List T → List T → Bool
  unfolding contains
  contains_any [] s2 = false
  contains_any (v1 ∷ s1) s2 = if contains s2 v1 then true else contains_any s1 s2

  unfoldable pub all_strings_in : List T → List T → Bool
  unfolding contains
  all_strings_in [] list = true
  all_strings_in (n ∷ names) list =
      if not (contains list n) then false else all_strings_in names list

  -- The loop of Deduplicate, with the elements seen so far.
  unfoldable pub deduplicate_after : List T → List T → List T
  unfolding contains
  deduplicate_after seen [] = []
  deduplicate_after seen (item ∷ s) =
      if not (contains seen item)
      then item ∷ deduplicate_after (item ∷ seen) s
      else deduplicate_after seen s

  unfoldable pub deduplicate : List T → List T
  unfolding deduplicate_after
  deduplicate s = deduplicate_after [] s

  unfoldable pub optional_strings_equal : Option T → Option T → Bool
  optional_strings_equal none none = true
  optional_strings_equal none (some right) = false
  optional_strings_equal (some left) none = false
  optional_strings_equal (some left) (some right) = eq left right
