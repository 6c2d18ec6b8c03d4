-- ===== src/Table/Laws.antt =====
-- Laws of the statements of Table.antt: what an UPDATE keeps, what a SELECT finds, and keys.
use mathlib.Core.List.{Memᴰ}
use mathlib.Core.List.Memᴰ
use content_sources_backend.Common.{
  ℕ, ◌≡◌, refl, Bool, true, false, none, some, List, [], ◌∷◌, arith, if◌then◌else◌, ◌==◌, any, All,
  Bool-cases, inl, inr, ==_iff, ◌∙◌, ◌&&◌,
}
use content_sources_backend.Table.{update, delete, affected, find}

module _ {ℓ} {A : Type ℓ} where
  -- Rows that differ in their keys.
  abbrev pub DistinctBy : (A → ℕ) → List A → Type 0
  DistinctBy key [] = Unit
  DistinctBy key (x ∷ xs) = (any (λ y. key y == key x) xs ≡ false) × DistinctBy key xs

  pub All-update {κ} :
      (P : A → Type κ) (p : A → Bool) (f : A → A) (xs : List A)
      → ((x : A) → p x ≡ true → P x → P (f x))
      → All P xs
      → All P (update p f xs)
  unfolding update
  All-update P p f [] h a = tt
  All-update P p f (x ∷ xs) h a = (head (p x) (h x), All-update P p f xs h a.1)
    where
      head : (b : Bool) → (b ≡ true → P x → P (f x)) → P (if b then f x else x)
      head true g = g refl a.0
      head false g = a.0

  -- The same, where more is known of the rows.
  pub All-update_with {κ μ} :
      (Q : A → Type μ) (P : A → Type κ) (p : A → Bool) (f : A → A) (xs : List A)
      → ((x : A) → Q x → p x ≡ true → P x → P (f x))
      → All Q xs
      → All P xs
      → All P (update p f xs)
  unfolding update
  All-update_with Q P p f [] h b a = tt
  All-update_with Q P p f (x ∷ xs) h b a =
      (head (p x) (h x b.0), All-update_with Q P p f xs h b.1 a.1)
    where
      head : (c : Bool) → (c ≡ true → P x → P (f x)) → P (if c then f x else x)
      head true g = g refl a.0
      head false g = a.0

  pub All-delete {κ} :
      (P : A → Type κ) (p : A → Bool) (xs : List A) → All P xs → All P (delete p xs)
  unfolding delete
  All-delete P p [] a = tt
  All-delete P p (x ∷ xs) a = elim (Bool-cases (p x)) [
    | inl e ↦ rw e (All-delete P p xs a.1)
    | inr e ↦ rw e (a.0, All-delete P p xs a.1)
  ]

  pub All-map_imp {κ μ} :
      (P : A → Type κ) (Q : A → Type μ) (xs : List A) → ((x : A) → P x → Q x) → All P xs → All Q xs
  All-map_imp P Q [] h a = tt
  All-map_imp P Q (x ∷ xs) h a = (h x a.0, All-map_imp P Q xs h a.1)

  -- An UPDATE and a DELETE keep what they do not match.
  pub update-none : (p : A → Bool) (f : A → A) (xs : List A) → any p xs ≡ false → update p f xs ≡ xs
  unfolding update
  update-none p f [] h = refl
  update-none p f (x ∷ xs) h = ground (arith, update-none p f xs)

  pub any-update :
      (q p : A → Bool) (f : A → A) (xs : List A)
      → ((x : A) → q (f x) ≡ q x)
      → any q (update p f xs) ≡ any q xs
  unfolding update
  any-update q p f [] h = refl
  any-update q p f (x ∷ xs) h = ground (arith, h x, any-update q p f xs h)

  pub any-mem : (q : A → Bool) (xs : List A) (t : A) → Memᴰ t xs → q t ≡ true → any q xs ≡ true
  any-mem q [] t m h = absurd (Memᴰ.not-nil m)
  any-mem q (x ∷ xs) t m h = elim (Memᴰ.cases_cons m) [
    | inl e ↦ rw (← e) (rw h)
    | inr later ↦ ground (arith, any-mem q xs t later h)
  ]

  pub any-delete : (q p : A → Bool) (xs : List A) → any q xs ≡ false → any q (delete p xs) ≡ false
  unfolding delete
  any-delete q p [] h = refl
  any-delete q p (x ∷ xs) h = ground (arith, any-delete q p xs)

  pub any-delete_self : (p : A → Bool) (xs : List A) → any p (delete p xs) ≡ false
  unfolding delete
  any-delete_self p [] = refl
  any-delete_self p (x ∷ xs) = ground (arith, any-delete_self p xs)

  pub DistinctBy-update :
      (key : A → ℕ) (p : A → Bool) (f : A → A) (xs : List A)
      → ((x : A) → key (f x) ≡ key x)
      → DistinctBy key xs
      → DistinctBy key (update p f xs)
  unfolding update
  DistinctBy-update key p f [] h d = tt
  DistinctBy-update key p f (x ∷ xs) h d = (head, DistinctBy-update key p f xs h d.1)
    where
      same : key (if p x then f x else x) ≡ key x
      same = ground (arith, h x)

      head : any (λ y. key y == key (if p x then f x else x)) (update p f xs) ≡ false
      head = rw same (any-update (λ y. key y == key x) p f xs (λ y. rw (h y)) ∙ d.0)

  pub DistinctBy-delete :
      (key : A → ℕ) (p : A → Bool) (xs : List A) → DistinctBy key xs → DistinctBy key (delete p xs)
  unfolding delete
  DistinctBy-delete key p [] d = tt
  DistinctBy-delete key p (x ∷ xs) d = elim (Bool-cases (p x)) [
    | inl e ↦ rw e (DistinctBy-delete key p xs d.1)
    | inr e ↦ rw e (any-delete (λ y. key y == key x) p xs d.0, DistinctBy-delete key p xs d.1)
  ]

  -- A row that a SELECT finds passes its test, and has what every row has.
  pub find_sound : (p : A → Bool) (xs : List A) {x : A} → find p xs ≡ some x → p x ≡ true
  unfolding find
  find_sound p [] h = cc
  find_sound p (x ∷ xs) h = elim (Bool-cases (p x)) [
    | inl e ↦ ground arith
    | inr e ↦ find_sound p xs (rw e at h)
  ]

  pub All-find {κ} :
      (P : A → Type κ) (p : A → Bool) (xs : List A) {x : A} → All P xs → find p xs ≡ some x → P x
  unfolding find
  All-find P p [] a h = cc
  All-find P p (x ∷ xs) a h = elim (Bool-cases (p x)) [
    | inl e ↦ (let q : some x ≡ some _ = (rw e at h) in ground arith)
    | inr e ↦ All-find P p xs a.1 (rw e at h)
  ]

  pub find-any : (p : A → Bool) (xs : List A) → any p xs ≡ false → find p xs ≡ none
  unfolding find
  find-any p [] h = refl
  find-any p (x ∷ xs) h = ground (arith, find-any p xs)

  -- An UPDATE that keeps the test of a SELECT acts on the row that the SELECT finds.
  pub find-update :
      (q p : A → Bool) (f : A → A) (xs : List A)
      → ((x : A) → q (f x) ≡ q x)
      → find q (update p f xs)
        ≡ elim (find q xs) [ none ↦ none | some x ↦ some (if p x then f x else x) ]
  unfolding find update
  find-update q p f [] h = refl
  find-update q p f (x ∷ xs) h = ground (arith, h x, find-update q p f xs h)

  -- Where keys differ, the row found by a key is the only one with it.
  pub All-key :
      (key : A → ℕ) (k : ℕ) (xs : List A) {x : A}
      → DistinctBy key xs
      → find (λ y. key y == k) xs ≡ some x
      → All (λ y. (key y == k) ≡ true → y ≡ x) xs
  unfolding find
  All-key key k [] d h = tt
  All-key key k (y ∷ ys) {x = x} d h = elim (Bool-cases (key y == k)) [
    | inl e ↦ (λ _. ground arith, others ys (rw (← (==_iff _ _).0 e) d.0))
    | inr e ↦ (λ e'. cc, All-key key k ys d.1 (rw e at h))
  ]
    where
      others :
          (zs : List A)
          → any (λ z. key z == k) zs ≡ false
          → All (λ z. (key z == k) ≡ true → z ≡ x) zs
      others [] n = tt
      others (z ∷ zs) n = (λ e. ground arith, others zs (ground arith))

  pub affected-key :
      (key : A → ℕ) (k : ℕ) (q : A → Bool) (xs : List A) {x : A}
      → DistinctBy key xs
      → find (λ y. key y == k) xs ≡ some x
      → q x ≡ true
      → affected (λ y. (key y == k) && q y) xs ≡ 1
  unfolding find affected
  affected-key key k q [] d h hq = cc
  affected-key key k q (y ∷ ys) {x = x} d h hq = elim (Bool-cases (key y == k)) [
    | inl e ↦ ground (arith, no_others ys (rw (← (==_iff _ _).0 e) d.0))
    | inr e ↦ ground (arith, affected-key key k q ys d.1 (rw e at h) hq)
  ]
    where
      no_others :
          (zs : List A)
          → any (λ z. key z == k) zs ≡ false
          → affected (λ z. (key z == k) && q z) zs ≡ 0
      no_others [] n = refl
      no_others (z ∷ zs) n = ground (arith, no_others zs)
