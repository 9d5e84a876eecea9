-- ===== src/Text/Sizes.antt =====
-- How many bytes the texts have that trimming, cutting and joining give.
use Prim.Native.Char.{Char, code, len_utf8, len_utf8_def, width}
use Prim.Native.Nat.{Ordering}
use Prim.Native.String.{len, count, ◌++◌ as str_append}
use Prim.Native.String.len
use Prim.Native.String.count
use text.Mathlib.TextPositions.{len-append, len_utf8-pos}
use text.Mathlib.TextLemmas.{cons-append, nil-append, append-nil, append_assoc}
use lidradar.Prelude.{
  ℕ, zero, suc, ◌+◌, ◌*◌, ◌/◌, ◌%◌, ◌<◌, ◌==◌, ◌≤◌, ◌≡◌, refl, sym, ap, subst, ◌∙◌, Bool, true,
  false, String, List, [], ◌∷◌, ◌++◌, not, arith, ◌&&◌,
}
use lidradar.Text.{
  is_space, is_empty, trim_left, trim_right, trim_space, take_runes, joined, digit, decimal_from,
  decimal,
}

len-cons : (c : Char) (s : String) → len (String.◌∷◌ c s) ≡ len_utf8 c + len s
len-cons c s = λ i. len.cons c s i

count-cons : (c : Char) (s : String) → count (String.◌∷◌ c s) ≡ suc (count s)
count-cons c s = λ i. count.cons c s i

width-le : (a b c : Ordering) → width a b c ≤ 4
width-le Ordering.lt b c = omega arith
width-le _ Ordering.lt c = omega arith
width-le _ _ Ordering.lt = omega arith
width-le _ _ _ = omega arith

len_utf8-le : (c : Char) → len_utf8 c ≤ 4
len_utf8-le c = subst (λ n. n ≤ 4) (sym (λ i. len_utf8_def c i)) (width-le _ _ _)

pub len-take_runes : (n : ℕ) (s : String) → len (take_runes n s) ≤ 4 * n
unfolding take_runes
len-take_runes zero s = omega arith
len-take_runes (suc n) String.[] = omega arith
len-take_runes (suc n) (String.◌∷◌ c s) =
    omega (arith, len-cons c (take_runes n s), len_utf8-le c, len-take_runes n s)

pub len-le-count : (s : String) → len s ≤ 4 * count s
len-le-count String.[] = omega arith
len-le-count (String.◌∷◌ c s) =
    omega (arith, len-cons c s, count-cons c s, len_utf8-le c, len-le-count s)

pub len-joined : (s : String) (ss : List String) → len (joined (s ∷ ss)) ≡ len s + len (joined ss)
unfolding joined
len-joined s ss = len-append s (joined ss)

trim_left-le : (s : String) → len (trim_left s) ≤ len s
unfolding trim_left
trim_left-le String.[] = omega arith
trim_left-le (String.◌∷◌ c s) = ground (arith, len-cons c s, trim_left-le s)

trim_right-le : (s : String) → len (trim_right s) ≤ len s
unfolding trim_right
trim_right-le String.[] = omega arith
trim_right-le (String.◌∷◌ c s) =
    ground (arith, len-cons c s, len-cons c (trim_right s), trim_right-le s)

pub trim_space-le : (s : String) → len (trim_space s) ≤ len s
unfolding trim_space
trim_space-le s = omega (arith, trim_left-le s, trim_right-le (trim_left s))

and-false : (b : Bool) → (b && false) ≡ false
and-false true = refl
and-false false = refl

-- A text that ends as `t` does keeps its end, if `t` does.
trim_right-append :
    (s t : String)
    → trim_right t ≡ t
    → is_empty t ≡ false
    → (trim_right (str_append s t) ≡ str_append s t) × (is_empty (str_append s t) ≡ false)
unfolding trim_right
trim_right-append String.[] t h n = (rw (nil-append t) h, rw (nil-append t) n)
trim_right-append (String.◌∷◌ c s) t h n =
    let (same, more) = trim_right-append s t h n in
    (
      rw (cons-append c s t, same, more, and-false (is_space (code c))) refl,
      rw (cons-append c s t) refl,
    )

-- A text that begins without white space.
unfoldable pub solid : String → Bool
solid String.[] = false
solid (String.◌∷◌ c s) = not (is_space (code c))

-- A text that begins and ends without white space is trimmed.
pub trim_space-solid :
    (p s t : String)
    → solid p ≡ true
    → trim_right t ≡ t
    → is_empty t ≡ false
    → trim_space (str_append p (str_append s t)) ≡ str_append p (str_append s t)
unfolding solid trim_space trim_left trim_right
trim_space-solid String.[] s t h k n = cc
trim_space-solid (String.◌∷◌ c p) s t h k n =
    let (same, more) = trim_right-append (str_append p s) t k n in
    let dark : is_space (code c) ≡ false = ground arith in
    rw
      (
        cons-append c p (str_append s t),
        dark,
        ← append_assoc p s t,
        same,
        more,
        and-false (is_space (code c)),
      )
      refl

trim_left-solid :
    (c : Char) (s : String)
    → is_space (code c) ≡ false
    → trim_left (String.◌∷◌ c s) ≡ String.◌∷◌ c s
unfolding trim_left
trim_left-solid c s dark = rw dark refl

trim_right-pos :
    (c : Char) (s : String) → is_space (code c) ≡ false → 1 ≤ len (trim_right (String.◌∷◌ c s))
unfolding trim_right
trim_right-pos c s dark =
    let (k, width) = len_utf8-pos c in rw dark (omega (arith, len-cons c (trim_right s), width))

-- A text that begins without white space has something left when it is trimmed.
pub trim_space-pos : (p s : String) → solid p ≡ true → 1 ≤ len (trim_space (str_append p s))
unfolding solid trim_space
trim_space-pos String.[] s h = cc
trim_space-pos (String.◌∷◌ c p) s h =
    let dark : is_space (code c) ≡ false = ground arith in
    rw (cons-append c p s, trim_left-solid c (str_append p s) dark)
      (trim_right-pos c (str_append p s) dark)

pub joined-append :
    (ss : List String) (t : String) → joined (ss ++ t ∷ []) ≡ str_append (joined ss) t
unfolding joined
joined-append [] t = simp (append-nil, nil-append)
joined-append (s ∷ ss) t =
    ap (str_append s) (joined-append ss t) ∙ sym (append_assoc s (joined ss) t)

len-digit : (d : ℕ) → len (digit d) ≤ 1
unfolding digit
len-digit zero = omega arith
len-digit (suc zero) = omega arith
len-digit (suc (suc zero)) = omega arith
len-digit (suc (suc (suc zero))) = omega arith
len-digit (suc (suc (suc (suc zero)))) = omega arith
len-digit (suc (suc (suc (suc (suc zero))))) = omega arith
len-digit (suc (suc (suc (suc (suc (suc zero)))))) = omega arith
len-digit (suc (suc (suc (suc (suc (suc (suc zero))))))) = omega arith
len-digit (suc (suc (suc (suc (suc (suc (suc (suc zero)))))))) = omega arith
len-digit _ = omega arith

-- A number below ten has one digit.
pub len-decimal_digit : (n : ℕ) → n < 10 → len (decimal n) ≤ 1
unfolding decimal decimal_from
len-decimal_digit n l =
    let last : (n / 10 == 0) ≡ true = ground arith in
    rw (last, append-nil (digit (n % 10))) (len-digit (n % 10))
