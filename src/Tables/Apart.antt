-- ===== src/Tables/Apart.antt =====
-- Unique indexes: rows of which no two are related, and what INSERT and UPDATE keep of that.
use mathlib.Core.List.{Memᴰ}
use lidradar.Prelude.{
  ◌≡◌, refl, sym, ap, subst, ◌∙◌, Bool, true, false, ◌||◌, Option, none, some, if◌then◌else◌, any,
  List, [], ◌∷◌, ◌++◌, All, Bool-cases, inl, inr, String, str_eq, eq_iff, arith,
}
use lidradar.Tables.{find, update_where}

pub or_false : (a b : Bool) → a || b ≡ false → (a ≡ false) × (b ≡ false)
or_false true b h = cc
or_false false b h = (refl, h)

pub text_eq_symm : (s t : String) → str_eq s t ≡ str_eq t s
text_eq_symm s t = ground (arith, eq_iff s t, eq_iff t s)

pub text_eq_refl : (s : String) → str_eq s s ≡ true
text_eq_refl s = ground (arith, eq_iff s s)

module _ {ℓ} {A : Type ℓ} where
  pub some_injective : {a b : A} → ◌≡◌ {A = Option A} (some a) (some b) → a ≡ b
  some_injective h = cc

  pub find-none : (p : A → Bool) (xs : List A) → find p xs ≡ none → any p xs ≡ false
  unfolding find
  find-none p [] h = refl
  find-none p (x ∷ xs) h = elim (Bool-cases (p x)) [
    | inl t ↦ let bad = subst (λ b. (if b then some x else find p xs) ≡ none) t h in cc
    | inr f ↦ rw f (find-none p xs (subst (λ b. (if b then some x else find p xs) ≡ none) f h))
  ]

  pub find-some :
      (p : A → Bool) (xs : List A) (x : A) → find p xs ≡ some x → Memᴰ x xs × (p x ≡ true)
  unfolding find
  find-some p [] x h = cc
  find-some p (y ∷ ys) x h = elim (Bool-cases (p y)) [
    | inl t ↦
        let same : y ≡ x =
          some_injective (subst (λ b. (if b then some y else find p ys) ≡ some x) t h) in
        (Memᴰ.head (sym same), ap p (sym same) ∙ t)
    | inr f ↦
        let (m, k) =
          find-some p ys x (subst (λ b. (if b then some y else find p ys) ≡ some x) f h) in
        (Memᴰ.tail m, k)
  ]

  pub any-append-one :
      (p : A → Bool) (xs : List A) (x : A)
      → any p xs ≡ false
      → p x ≡ false
      → any p (xs ++ x ∷ []) ≡ false
  any-append-one p [] x h k = rw k refl
  any-append-one p (y ∷ ys) x h k =
      let (l, r) = or_false (p y) (any p ys) h in rw (l, any-append-one p ys x r k) refl

  pub All-append-one {κ} :
      (P : A → Type κ) (xs : List A) (x : A) → All P xs → P x → All P (xs ++ x ∷ [])
  All-append-one P [] x a h = (h, tt)
  All-append-one P (y ∷ ys) x a h = (a.0, All-append-one P ys x a.1 h)

  -- No row is related to one behind it.
  abbrev pub Apart : (A → A → Bool) → List A → Type 0
  Apart R [] = Unit
  Apart R (x ∷ xs) = (any (R x) xs ≡ false) × Apart R xs

  pub Apart-append-one :
      (R : A → A → Bool)
      → ((x y : A) → R x y ≡ R y x)
      → (xs : List A) (x : A) → Apart R xs
      → any (R x) xs ≡ false
      → Apart R (xs ++ x ∷ [])
  Apart-append-one R s [] x d h = (refl, tt)
  Apart-append-one R s (y ∷ ys) x d h =
      let (l, r) = or_false (R x y) (any (R x) ys) h in
      (any-append-one (R y) ys x d.0 (s y x ∙ l), Apart-append-one R s ys x d.1 r)

  either-false :
      (b : Bool) (p : A → Bool) (x y : A)
      → p x ≡ false
      → p y ≡ false
      → p (if b then x else y) ≡ false
  either-false true p x y h k = h
  either-false false p x y h k = k

  any-update_where-false :
      (p : A → Bool) (f : A → A) (q q' : A → Bool) (xs : List A)
      → ((x : A) → q x ≡ false → q' x ≡ false)
      → ((x : A) → q x ≡ false → q' (f x) ≡ false)
      → any q xs ≡ false
      → any q' (update_where p f xs) ≡ false
  unfolding update_where
  any-update_where-false p f q q' [] keeps changes h = refl
  any-update_where-false p f q q' (x ∷ xs) keeps changes h =
      let (l, r) = or_false (q x) (any q xs) h in
      rw
        (
          either-false (p x) q' (f x) x (changes x l) (keeps x l),
          any-update_where-false p f q q' xs keeps changes r,
        )
        refl

  -- An UPDATE that relates no rows but those that were.
  pub Apart-update_where :
      (R : A → A → Bool) (p : A → Bool) (f : A → A)
      → ((x y : A) → R x y ≡ R y x)
      → ((x y : A) → R x y ≡ false → R (f x) y ≡ false)
      → (xs : List A) → Apart R xs
      → Apart R (update_where p f xs)
  unfolding update_where
  Apart-update_where R p f s shrinks [] d = tt
  Apart-update_where R p f s shrinks (x ∷ xs) d =
      (go (p x), Apart-update_where R p f s shrinks xs d.1)
    where
      go : (b : Bool) → any (R (if b then f x else x)) (update_where p f xs) ≡ false
      go true =
          any-update_where-false p f (R x) (R (f x)) xs (λ y h. shrinks x y h)
            (λ y h. s (f x) (f y) ∙ shrinks y (f x) (s y (f x) ∙ shrinks x y h)) d.0
      go false =
          any-update_where-false p f (R x) (R x) xs (λ y h. h)
            (λ y h. s x (f y) ∙ shrinks y x (s y x ∙ h)) d.0

  any-false-Memᴰ : (p : A → Bool) (xs : List A) (x : A) → any p xs ≡ false → Memᴰ x xs → p x ≡ false
  any-false-Memᴰ p [] x h m = elim m [ ]
  any-false-Memᴰ p (y ∷ ys) x h (Memᴰ.head e) =
      let (l, r) = or_false (p y) (any p ys) h in ap p e ∙ l
  any-false-Memᴰ p (y ∷ ys) x h (Memᴰ.tail m) =
      let (l, r) = or_false (p y) (any p ys) h in any-false-Memᴰ p ys x r m

  -- Two rows that are related are one.
  Apart-unique :
      (R : A → A → Bool)
      → ((x y : A) → R x y ≡ R y x)
      → (xs : List A) (x y : A) → Apart R xs
      → Memᴰ x xs
      → Memᴰ y xs
      → R x y ≡ true
      → x ≡ y
  Apart-unique R s [] x y d m n h = elim m [ ]
  Apart-unique R s (z ∷ zs) x y d (Memᴰ.head a) (Memᴰ.head b) h = a ∙ sym b
  Apart-unique R s (z ∷ zs) x y d (Memᴰ.head a) (Memᴰ.tail n) h =
      let bad = any-false-Memᴰ (R z) zs y d.0 n in let same = ap (λ v. R v y) a in cc
  Apart-unique R s (z ∷ zs) x y d (Memᴰ.tail m) (Memᴰ.head b) h =
      let bad = any-false-Memᴰ (R z) zs x d.0 m in let same = ap (λ v. R x v) b ∙ s x z in cc
  Apart-unique R s (z ∷ zs) x y d (Memᴰ.tail m) (Memᴰ.tail n) h = Apart-unique R s zs x y d.1 m n h

module _ {ℓ} {A : Type ℓ} where
  pub find-absent : (p : A → Bool) (xs : List A) → any p xs ≡ false → find p xs ≡ none
  unfolding find
  find-absent p [] h = refl
  find-absent p (x ∷ xs) h =
      let (l, r) = or_false (p x) (any p xs) h in rw (l, find-absent p xs r) refl

  pub find-append-one :
      (p : A → Bool) (xs : List A) (x : A)
      → any p xs ≡ false
      → p x ≡ true
      → find p (xs ++ x ∷ []) ≡ some x
  unfolding find
  find-append-one p [] x h k = rw k refl
  find-append-one p (y ∷ ys) x h k =
      let (l, r) = or_false (p y) (any p ys) h in rw (l, find-append-one p ys x r k) refl

  -- A query finds the row that an UPDATE with its condition wrote, where the row still meets it.
  pub find-update_where :
      (p : A → Bool) (f : A → A) (xs : List A) (x : A)
      → find p xs ≡ some x
      → p (f x) ≡ true
      → find p (update_where p f xs) ≡ some (f x)
  unfolding find update_where
  find-update_where p f [] x h k = cc
  find-update_where p f (y ∷ ys) x h k = elim (Bool-cases (p y)) [
    | inl t ↦
        let same : y ≡ x =
          some_injective (subst (λ b. (if b then some y else find p ys) ≡ some x) t h) in
        let still : p (f y) ≡ true = ap (λ v. p (f v)) same ∙ k in
        rw (t, still) (ap (λ v. some (f v)) same)
    | inr n ↦
        let there =
          find-update_where p f ys x (subst (λ b. (if b then some y else find p ys) ≡ some x) n h)
            k in
        rw (n, n) there
  ]

  -- Rows that an UPDATE takes out of its own condition are gone from the query.
  pub find-update_where-none :
      (p : A → Bool) (f : A → A)
      → ((x : A) → p (f x) ≡ false)
      → (xs : List A) → find p (update_where p f xs) ≡ none
  unfolding find update_where
  find-update_where-none p f out [] = refl
  find-update_where-none p f out (x ∷ xs) = elim (Bool-cases (p x)) [
    | inl t ↦ rw (t, out x) (find-update_where-none p f out xs)
    | inr n ↦ rw (n, n) (find-update_where-none p f out xs)
  ]

  -- An UPDATE of one of the rows that a query names: its condition is narrower, and it leaves the name.
  module _ (p q : A → Bool) (narrow : (x : A) → p x ≡ true → q x ≡ true) where
    unnamed : (x : A) → q x ≡ false → p x ≡ false
    unnamed x h = elim (Bool-cases (p x)) [ inl t ↦ let named = narrow x t in cc | inr n ↦ n ]

    -- The row that the name finds is found by the narrower condition, where it meets it.
    pub find-narrow : (xs : List A) (x : A) → find q xs ≡ some x → p x ≡ true → find p xs ≡ some x
    unfolding find
    find-narrow [] x h k = cc
    find-narrow (y ∷ ys) x h k = elim (Bool-cases (q y)) [
      | inl t ↦
          let same : y ≡ x =
            some_injective (subst (λ b. (if b then some y else find q ys) ≡ some x) t h) in
          rw (ap p same ∙ k) (ap some same)
      | inr n ↦
          rw (unnamed y n)
            (find-narrow ys x (subst (λ b. (if b then some y else find q ys) ≡ some x) n h) k)
    ]

    pub find-update-narrow :
        (f : A → A) (xs : List A) (x : A)
        → ((y : A) → q (f y) ≡ q y)
        → find q xs ≡ some x
        → p x ≡ true
        → find q (update_where p f xs) ≡ some (f x)
    unfolding find update_where
    find-update-narrow f [] x name h k = cc
    find-update-narrow f (y ∷ ys) x name h k = elim (Bool-cases (q y)) [
      | inl t ↦
          let same : y ≡ x =
            some_injective (subst (λ b. (if b then some y else find q ys) ≡ some x) t h) in
          rw (ap p same ∙ k, name y, t) (ap (λ v. some (f v)) same)
      | inr n ↦
          rw (unnamed y n, n)
            (find-update-narrow f ys x name
              (subst (λ b. (if b then some y else find q ys) ≡ some x) n h) k)
    ]

  -- An UPDATE of rows that a query does not name, before or after, leaves its answer.
  pub find-update-apart :
      (p q : A → Bool) (f : A → A) (xs : List A)
      → ((x : A) → p x ≡ true → (q x ≡ false) × (q (f x) ≡ false))
      → find q (update_where p f xs) ≡ find q xs
  unfolding find update_where
  find-update-apart p q f [] h = refl
  find-update-apart p q f (x ∷ xs) h = elim (Bool-cases (p x)) [
    | inl t ↦ let (was, is) = h x t in rw (t, was, is) (find-update-apart p q f xs h)
    | inr n ↦ rw n (ap (λ o. if q x then some x else o) (find-update-apart p q f xs h))
  ]
