-- ===== src/Risk/BusinessTime/Day.antt =====
-- One day of a schedule: what the scan of its periods takes is what their overlaps sum to.
use lidradar.Prelude.{
  ℕ, ◌+◌, ◌-◌, ◌≤◌, ◌<◌, ◌≡◌, refl, List, [], ◌∷◌, arith, ltb, leb, if◌then◌else◌, ◌⊎◌, inl, inr,
  Bool-cases,
}
use lidradar.Time.{Time}
use lidradar.Risk.BusinessTime.{Scan, scan, overlap}

-- Periods one after the other, none before `low`, none empty.
abbrev pub Ordered : Time → List (Time × Time) → Type 0
Ordered low [] = Unit
Ordered low (p ∷ ps) = (low ≤ p.0) × (p.0 < p.1) × Ordered p.1 ps

-- All periods have closed by `t`.
abbrev pub Closed : Time → List (Time × Time) → Type 0
Closed t [] = Unit
Closed t (p ∷ ps) = (p.1 ≤ t) × Closed t ps

pub Ordered-mono :
    {low low₂ : Time} (ps : List (Time × Time)) → low₂ ≤ low → Ordered low ps → Ordered low₂ ps
Ordered-mono [] h o = tt
Ordered-mono (p ∷ ps) h o = (omega arith, o.1, o.2)

-- Periods that open at `t` or later have no overlap with the time before `t`.
pub overlap_before : (c t : Time) (ps : List (Time × Time)) → Ordered t ps → overlap c t ps ≡ 0
unfolding overlap
overlap_before c t [] o = refl
overlap_before c t (p ∷ ps) o =
    ground (arith, overlap_before c t ps (Ordered-mono ps (omega arith) o.2))

-- Where the scan ends within the day, it ends after the cursor, and the time up to there that lies
-- in the periods is the amount that was asked for.
pub scan-done :
    (low c a t : ℕ) (ps : List (Time × Time))
    → Ordered low ps
    → scan c a ps ≡ Scan.done t
    → (c ≤ t) × (low ≤ t) × (overlap c t ps ≡ a)
unfolding scan overlap
scan-done low c a t [] o h = cc
scan-done low c a t (p ∷ ps) o h = elim (Bool-cases (ltb c p.1)) [
  | inl early ↦ elim (Bool-cases (leb a (p.1 - (if ltb c p.0 then p.0 else c)))) [
    | inl fits ↦
        let end : t ≡ (if ltb c p.0 then p.0 else c) + a = ground arith in
        ground (arith, overlap_before c t ps (Ordered-mono ps (ground arith) o.2))
    | inr beyond ↦
        ground (arith, scan-done p.1 c (a - (p.1 - (if ltb c p.0 then p.0 else c))) t ps o.2)
  ]
  | inr over ↦ ground (arith, scan-done p.1 c a t ps o.2)
]

-- Where the day does not hold the amount, the scan leaves what is over the day's periods from the
-- cursor on, and something is left.
pub scan-left :
    (low c a r t : ℕ) (ps : List (Time × Time))
    → Ordered low ps
    → Closed t ps
    → 0 < a
    → scan c a ps ≡ Scan.left r
    → (overlap c t ps + r ≡ a) × (0 < r)
unfolding scan overlap
scan-left low c a r t [] o k pos h = ground arith
scan-left low c a r t (p ∷ ps) o k pos h = elim (Bool-cases (ltb c p.1)) [
  | inl early ↦ elim (Bool-cases (leb a (p.1 - (if ltb c p.0 then p.0 else c)))) [
    | inl fits ↦ ground arith
    | inr beyond ↦
        ground (arith, scan-left p.1 c (a - (p.1 - (if ltb c p.0 then p.0 else c))) r t ps o.2 k.1)
  ]
  | inr over ↦ ground (arith, scan-left p.1 c a r t ps o.2 k.1)
]

-- From the start of the day or earlier the overlap is the same.
pub overlap_from :
    (from start low t : Time) (ps : List (Time × Time))
    → from ≤ low
    → start ≤ low
    → Ordered low ps
    → overlap from t ps ≡ overlap start t ps
unfolding overlap
overlap_from from start low t [] h k o = refl
overlap_from from start low t (p ∷ ps) h k o =
    ground (arith, overlap_from from start p.1 t ps (omega arith) (omega arith) o.2)

pub scan-done-le :
    (low c a t last : ℕ) (ps : List (Time × Time))
    → Ordered low ps
    → Closed last ps
    → scan c a ps ≡ Scan.done t
    → t ≤ last
unfolding scan
scan-done-le low c a t last [] o k h = cc
scan-done-le low c a t last (p ∷ ps) o k h = elim (Bool-cases (ltb c p.1)) [
  | inl early ↦ elim (Bool-cases (leb a (p.1 - (if ltb c p.0 then p.0 else c)))) [
    | inl fits ↦ ground arith
    | inr beyond ↦
        ground
          (arith, scan-done-le p.1 c (a - (p.1 - (if ltb c p.0 then p.0 else c))) t last ps o.2 k.1)
  ]
  | inr over ↦ ground (arith, scan-done-le p.1 c a t last ps o.2 k.1)
]

pub Closed-mono : {t u : Time} (ps : List (Time × Time)) → t ≤ u → Closed t ps → Closed u ps
Closed-mono [] h k = tt
Closed-mono (p ∷ ps) h k = (omega arith, Closed-mono ps h k.1)

pub Scan-cases : (s : Scan) → ((t : Time) × (s ≡ Scan.done t)) ⊎ ((r : ℕ) × (s ≡ Scan.left r))
Scan-cases (Scan.done t) = inl (t, refl)
Scan-cases (Scan.left r) = inr (r, refl)

-- A later end counts no less.
pub overlap_mono :
    (from t u : Time) (ps : List (Time × Time)) → t ≤ u → overlap from t ps ≤ overlap from u ps
unfolding overlap
overlap_mono from t u [] h = omega arith
overlap_mono from t u (p ∷ ps) h = ground (arith, overlap_mono from t u ps h)

pub overlap_empty : (t : Time) (ps : List (Time × Time)) → overlap t t ps ≡ 0
unfolding overlap
overlap_empty t [] = refl
overlap_empty t (p ∷ ps) = ground (arith, overlap_empty t ps)

-- Up to any earlier moment than the one that the scan finds, less than the amount is counted.
pub scan-done-first :
    (low c a t u : ℕ) (ps : List (Time × Time))
    → Ordered low ps
    → 0 < a
    → u < t
    → scan c a ps ≡ Scan.done t
    → overlap c u ps < a
unfolding scan overlap
scan-done-first low c a t u [] o pos l h = cc
scan-done-first low c a t u (p ∷ ps) o pos l h = elim (Bool-cases (ltb c p.1)) [
  | inl early ↦ elim (Bool-cases (leb a (p.1 - (if ltb c p.0 then p.0 else c)))) [
    | inl fits ↦
        let end : t ≡ (if ltb c p.0 then p.0 else c) + a = ground arith in
        ground (arith, overlap_before c u ps (Ordered-mono ps (ground arith) o.2))
    | inr beyond ↦
        ground
          (arith, scan-done-first p.1 c (a - (p.1 - (if ltb c p.0 then p.0 else c))) t u ps o.2)
  ]
  | inr over ↦ ground (arith, scan-done-first p.1 c a t u ps o.2)
]
