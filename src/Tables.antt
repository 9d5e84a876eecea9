-- ===== src/Tables.antt =====
-- Tables as lists of rows, whatever a row is: the rows that a condition keeps, an ORDER BY, the row
-- that a query finds and an UPDATE with a condition, with the lemmas that stores share.
pub mod Apart
use mathlib.Core.List.{Memᴰ}
use lidradar.Prelude.{
  ℕ, zero, suc, ◌≤◌, ◌≡◌, refl, sym, ap, subst, ◌∙◌, Bool, true, false, ◌||◌, Option, none, some,
  if◌then◌else◌, any, List, [], ◌∷◌, length, take, All, arith, Bool-cases, inl, inr, ◌⊎◌,
}

module _ {ℓ} {A : Type ℓ} where
  unfoldable pub keep : (A → Bool) → List A → List A
  keep p [] = []
  keep p (x ∷ xs) = if p x then x ∷ keep p xs else keep p xs

  unfoldable pub insert_by : (A → A → Bool) → A → List A → List A
  insert_by lt x [] = x ∷ []
  insert_by lt x (y ∷ ys) = let rest = insert_by lt x ys in if lt y x then y ∷ rest else x ∷ y ∷ ys

  unfoldable pub sort_by : (A → A → Bool) → List A → List A
  unfolding insert_by
  sort_by lt [] = []
  sort_by lt (x ∷ xs) = insert_by lt x (sort_by lt xs)

  unfoldable pub find : (A → Bool) → List A → Option A
  find p [] = none
  find p (x ∷ xs) = let rest = find p xs in if p x then some x else rest

  unfoldable pub update_where : (A → Bool) → (A → A) → List A → List A
  update_where p f [] = []
  update_where p f (x ∷ xs) = (if p x then f x else x) ∷ update_where p f xs

  -- What `p` keeps of a list of one more row.
  cons-Memᴰ :
      (b : Bool) (y : A) (ys : List A) (x : A)
      → Memᴰ x (if b then y ∷ ys else ys)
      → ((x ≡ y) × (b ≡ true)) ⊎ Memᴰ x ys
  cons-Memᴰ true y ys x (Memᴰ.head e) = inl (e, refl)
  cons-Memᴰ true y ys x (Memᴰ.tail m) = inr m
  cons-Memᴰ false y ys x m = inr m

  pub keep-Memᴰ :
      (p : A → Bool) (xs : List A) (x : A) → Memᴰ x (keep p xs) → Memᴰ x xs × (p x ≡ true)
  unfolding keep
  keep-Memᴰ p [] x m = elim m [ ]
  keep-Memᴰ p (y ∷ ys) x m = elim (cons-Memᴰ (p y) y (keep p ys) x m) [
    | inl (e, h) ↦ (Memᴰ.head e, ap p e ∙ h)
    | inr m' ↦ let (i, h) = keep-Memᴰ p ys x m' in (Memᴰ.tail i, h)
  ]

  either-Memᴰ :
      (b : Bool) (x y z : A) (zs ws : List A)
      → ((v : A) → Memᴰ v ws → (v ≡ y) ⊎ Memᴰ v zs)
      → Memᴰ x (if b then z ∷ ws else y ∷ z ∷ zs)
      → (x ≡ y) ⊎ Memᴰ x (z ∷ zs)
  either-Memᴰ true x y z zs ws sound (Memᴰ.head e) = inr (Memᴰ.head e)
  either-Memᴰ true x y z zs ws sound (Memᴰ.tail m) = elim (sound x m) [
    | inl e ↦ inl e
    | inr i ↦ inr (Memᴰ.tail i)
  ]
  either-Memᴰ false x y z zs ws sound (Memᴰ.head e) = inl e
  either-Memᴰ false x y z zs ws sound (Memᴰ.tail m) = inr m

  insert_by-Memᴰ :
      (lt : A → A → Bool) (y : A) (zs : List A) (x : A)
      → Memᴰ x (insert_by lt y zs)
      → (x ≡ y) ⊎ Memᴰ x zs
  unfolding insert_by
  insert_by-Memᴰ lt y [] x (Memᴰ.head e) = inl e
  insert_by-Memᴰ lt y [] x (Memᴰ.tail m) = inr m
  insert_by-Memᴰ lt y (z ∷ zs) x m =
      either-Memᴰ (lt z y) x y z zs (insert_by lt y zs) (insert_by-Memᴰ lt y zs) m

  pub sort_by-Memᴰ : (lt : A → A → Bool) (xs : List A) (x : A) → Memᴰ x (sort_by lt xs) → Memᴰ x xs
  unfolding sort_by
  sort_by-Memᴰ lt [] x m = m
  sort_by-Memᴰ lt (y ∷ ys) x m = elim (insert_by-Memᴰ lt y (sort_by lt ys) x m) [
    | inl e ↦ Memᴰ.head e
    | inr i ↦ Memᴰ.tail (sort_by-Memᴰ lt ys x i)
  ]

  pub take-Memᴰ : (n : ℕ) (xs : List A) (x : A) → Memᴰ x (take n xs) → Memᴰ x xs
  take-Memᴰ zero xs x m = elim m [ ]
  take-Memᴰ (suc n) [] x m = m
  take-Memᴰ (suc n) (y ∷ ys) x (Memᴰ.head e) = Memᴰ.head e
  take-Memᴰ (suc n) (y ∷ ys) x (Memᴰ.tail m) = Memᴰ.tail (take-Memᴰ n ys x m)

  length-insert_by :
      (lt : A → A → Bool) (x : A) (xs : List A) → length (insert_by lt x xs) ≡ suc (length xs)
  unfolding insert_by
  length-insert_by lt x [] = refl
  length-insert_by lt x (y ∷ ys) = elim (Bool-cases (lt y x)) [
    | inl h ↦ rw (h, length-insert_by lt x ys) refl
    | inr h ↦ rw h refl
  ]

  pub length-sort_by : (lt : A → A → Bool) (xs : List A) → length (sort_by lt xs) ≡ length xs
  unfolding sort_by
  length-sort_by lt [] = refl
  length-sort_by lt (x ∷ xs) = length-insert_by lt x (sort_by lt xs) ∙ ap suc (length-sort_by lt xs)

  pub length-take-pos : (n : ℕ) (xs : List A) → 1 ≤ n → 1 ≤ length xs → 1 ≤ length (take n xs)
  length-take-pos zero xs n l = absurd (omega arith)
  length-take-pos (suc n) [] m l = absurd (omega arith)
  length-take-pos (suc n) (x ∷ xs) m l = omega arith

  pub length-keep-pos : (p : A → Bool) (xs : List A) → any p xs ≡ true → 1 ≤ length (keep p xs)
  unfolding keep
  length-keep-pos p [] h = cc
  length-keep-pos p (y ∷ ys) h = elim (Bool-cases (p y)) [
    | inl h' ↦ rw h' (omega arith)
    | inr h' ↦ rw h' (length-keep-pos p ys (subst (λ b. b || any p ys ≡ true) h' h))
  ]

module _ {ℓ κ} {A : Type ℓ} (P : A → Type κ) where
  pub All-Memᴰ : (xs : List A) (x : A) → All P xs → Memᴰ x xs → P x
  All-Memᴰ [] x a m = elim m [ ]
  All-Memᴰ (y ∷ ys) x a (Memᴰ.head e) = subst P (sym e) a.0
  All-Memᴰ (y ∷ ys) x a (Memᴰ.tail m) = All-Memᴰ ys x a.1 m

  All-of : (xs : List A) → ((x : A) → Memᴰ x xs → P x) → All P xs
  All-of [] f = tt
  All-of (x ∷ xs) f = (f x (Memᴰ.head refl), All-of xs (λ y m. f y (Memᴰ.tail m)))

  one-All :
      (b : Bool) (f : A → A) (x : A) → (b ≡ true → P x → P (f x)) → P x → P (if b then f x else x)
  one-All true f x step h = step refl h
  one-All false f x step h = h

  -- An UPDATE keeps what its SET keeps of the rows of the table that it changes.
  pub All-update_where :
      (p : A → Bool) (f : A → A) (xs : List A)
      → ((x : A) → Memᴰ x xs → p x ≡ true → P x → P (f x))
      → All P xs
      → All P (update_where p f xs)
  unfolding update_where
  All-update_where p f [] step a = tt
  All-update_where p f (x ∷ xs) step a = (
    one-All (p x) f x (step x (Memᴰ.head refl)) a.0,
    All-update_where p f xs (λ y m. step y (Memᴰ.tail m)) a.1,
  )

module _ {ℓ} {A : Type ℓ} where
  pub any-Memᴰ : (p : A → Bool) (xs : List A) → any p xs ≡ true → (x : A) × Memᴰ x xs × (p x ≡ true)
  any-Memᴰ p [] h = cc
  any-Memᴰ p (y ∷ ys) h = elim (Bool-cases (p y)) [
    | inl h' ↦ (y, Memᴰ.head refl, h')
    | inr h' ↦
        let (x, m, k) = any-Memᴰ p ys (subst (λ b. b || any p ys ≡ true) h' h) in
        (x, Memᴰ.tail m, k)
  ]

  pub any-of-Memᴰ : (p : A → Bool) (xs : List A) (x : A) → Memᴰ x xs → p x ≡ true → any p xs ≡ true
  any-of-Memᴰ p [] x m h = elim m [ ]
  any-of-Memᴰ p (y ∷ ys) x (Memᴰ.head e) h = rw (sym (ap p e) ∙ h) refl
  any-of-Memᴰ p (y ∷ ys) x (Memᴰ.tail m) h = elim (Bool-cases (p y)) [
    | inl h' ↦ rw h' refl
    | inr h' ↦ rw h' (any-of-Memᴰ p ys x m h)
  ]
