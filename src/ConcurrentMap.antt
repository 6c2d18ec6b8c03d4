-- ===== src/ConcurrentMap.antt =====
-- ConcurrentMap (pkg/utils/concurrent_map.go). Its mutex makes each method one step, so the map is
-- its list of entries.
use content_sources_backend.Common.{
  ℕ, ◌≡◌, Option, none, some, List, [], ◌∷◌, arith, if◌then◌else◌, ◌==◌,
}

module _ {V : Type 0} where
  unfoldable pub get : List (ℕ × V) → ℕ → Option V
  get [] key = none
  get ((k, v) ∷ m) key = if k == key then some v else get m key

  unfoldable pub remove : List (ℕ × V) → ℕ → List (ℕ × V)
  remove [] key = []
  remove ((k, v) ∷ m) key = if k == key then remove m key else (k, v) ∷ remove m key

  unfoldable pub set : List (ℕ × V) → ℕ → V → List (ℕ × V)
  unfolding remove
  set m key value = (key, value) ∷ remove m key

  pub get-remove :
      (m : List (ℕ × V)) (key k : ℕ) → get (remove m key) k ≡ (if k == key then none else get m k)
  unfolding get remove
  get-remove [] key k = ground arith
  get-remove ((j, v) ∷ m) key k = ground (arith, get-remove m key k)

  -- A Get after a Set gives the value that was set at its key, and after a Remove none; at another
  -- key both leave what was there.
  pub get-set-remove :
      (m : List (ℕ × V)) (key k : ℕ) (value : V)
      → (get (set m key value) k ≡ (if k == key then some value else get m k))
        × (get (remove m key) k ≡ (if k == key then none else get m k))
  unfolding get set
  get-set-remove m key k value = (ground (arith, get-remove m key k), get-remove m key k)
