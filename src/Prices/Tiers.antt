-- ===== src/Prices/Tiers.antt =====
-- The discount by volume: the tiers sorted from the greatest start down, and the first that applies.
use mathlib.Core.List.{Memᴰ}
use balt_oil.Prices.Tariffs.{VolumeTier, insert_tier, sort_tiers, discount_for, first_tier}
use balt_oil.Prelude.{
  All, Bool-cases, List, [], arith, inl, inr, leb, ℕ, ◌∷◌, ◌≤◌, refl, ◌<◌, ◌≡◌, ◌⊎◌,
}
use mathlib.Core.List.Memᴰ

-- From the greatest start down.
abbrev Descending : List VolumeTier → Type 0
Descending [] = Unit
Descending (t ∷ ts) = All (λ u. u.min_volume ≤ t.min_volume) ts × Descending ts

All-weaken :
    (a b : ℕ) (ts : List VolumeTier)
    → a ≤ b
    → All (λ u. u.min_volume ≤ a) ts
    → All (λ u. u.min_volume ≤ b) ts
All-weaken a b [] le all = tt
All-weaken a b (t ∷ ts) le (h, all) = (omega arith, All-weaken a b ts le all)

module _ (P : VolumeTier → Type 0) where
  All-insert_tier :
      (t : VolumeTier) (ts : List VolumeTier) → P t → All P ts → All P (insert_tier t ts)
  All-insert_tier t [] p all = (p, tt)
  All-insert_tier t (u ∷ us) p (q, all) = elim (Bool-cases (leb u.min_volume t.min_volume)) [
    | inl first ↦ rw first (p, (q, all))
    | inr later ↦ rw later (q, All-insert_tier t us p all)
  ]

  insert_tier-All :
      (t : VolumeTier) (ts : List VolumeTier) → All P (insert_tier t ts) → P t × All P ts
  insert_tier-All t [] (p, all) = (p, tt)
  insert_tier-All t (u ∷ us) all = elim (Bool-cases (leb u.min_volume t.min_volume)) [
    | inl first ↦ let (p, rest) = (rw first at all) in (p, rest)
    | inr later ↦
        let (q, rest) = (rw later at all) in
        let (p, others) = insert_tier-All t us rest in (p, (q, others))
  ]

  sort_tiers-All : (ts : List VolumeTier) → All P (sort_tiers ts) → All P ts
  sort_tiers-All [] all = tt
  sort_tiers-All (t ∷ ts) all =
      let (p, rest) = insert_tier-All t (sort_tiers ts) all in (p, sort_tiers-All ts rest)

Memᴰ-insert_tier :
    (x t : VolumeTier) (ts : List VolumeTier) → Memᴰ x (insert_tier t ts) → Memᴰ x (t ∷ ts)
Memᴰ-insert_tier x t [] m = m
Memᴰ-insert_tier x t (u ∷ us) m = elim (Bool-cases (leb u.min_volume t.min_volume)) [
  | inl first ↦ rw first at m
  | inr later ↦ elim (Memᴰ.cases_cons (rw later at m)) [
    | inl here ↦ Memᴰ.tail (Memᴰ.head here)
    | inr rest ↦ elim (Memᴰ.cases_cons (Memᴰ-insert_tier x t us rest)) [
      | inl first ↦ Memᴰ.head first
      | inr behind ↦ Memᴰ.tail (Memᴰ.tail behind)
    ]
  ]
]

Descending-insert_tier :
    (t : VolumeTier) (ts : List VolumeTier) → Descending ts → Descending (insert_tier t ts)
Descending-insert_tier t [] d = (tt, tt)
Descending-insert_tier t (u ∷ us) (all, d) = elim (Bool-cases (leb u.min_volume t.min_volume)) [
  | inl first ↦
      let below : u.min_volume ≤ t.min_volume = ground arith in
      rw first ((below, All-weaken u.min_volume t.min_volume us below all), (all, d))
  | inr later ↦
      let below : t.min_volume ≤ u.min_volume = ground arith in
      rw later (
        All-insert_tier (λ v. v.min_volume ≤ u.min_volume) t us below all,
        Descending-insert_tier t us d,
      )
]

Descending-sort_tiers : (ts : List VolumeTier) → Descending (sort_tiers ts)
Descending-sort_tiers [] = tt
Descending-sort_tiers (t ∷ ts) = Descending-insert_tier t (sort_tiers ts) (Descending-sort_tiers ts)

Memᴰ-sort_tiers : (x : VolumeTier) (ts : List VolumeTier) → Memᴰ x (sort_tiers ts) → Memᴰ x ts
Memᴰ-sort_tiers x [] m = m
Memᴰ-sort_tiers x (t ∷ ts) m = elim (Memᴰ.cases_cons (Memᴰ-insert_tier x t (sort_tiers ts) m)) [
  | inl here ↦ Memᴰ.head here
  | inr rest ↦ Memᴰ.tail (Memᴰ-sort_tiers x ts rest)
]

-- A tier applies to the volume, and no other that applies begins at a greater volume.
abbrev pub IsBest : ℕ → List VolumeTier → VolumeTier → Type 0
IsBest volume tiers best =
    (best.min_volume ≤ volume)
    × All (λ t. t.min_volume ≤ volume → t.min_volume ≤ best.min_volume) tiers

-- The discount is the one of a best tier, or there is none and the volume is below every tier.
abbrev pub Answers : ℕ → List VolumeTier → ℕ → Type 0
Answers volume tiers discount =
    ((best : VolumeTier) × Memᴰ best tiers
      × IsBest volume tiers best
      × (discount ≡ best.discount_pct))
    ⊎ (All (λ t. volume < t.min_volume) tiers × (discount ≡ 0))

All-best :
    (volume least : ℕ) (ts : List VolumeTier)
    → All (λ u. u.min_volume ≤ least) ts
    → All (λ t. t.min_volume ≤ volume → t.min_volume ≤ least) ts
All-best volume least [] all = tt
All-best volume least (t ∷ ts) (h, all) = (λ applies. h, All-best volume least ts all)

first_tier-Answers :
    (volume : ℕ) (ts : List VolumeTier) → Descending ts → Answers volume ts (first_tier volume ts)
first_tier-Answers volume [] d = inr (tt, refl)
first_tier-Answers volume (t ∷ ts) (all, d) = elim (Bool-cases (leb t.min_volume volume)) [
  | inl applies ↦ inl (
    t,
    Memᴰ.head refl,
    (ground arith, (λ h. ground arith, All-best volume t.min_volume ts all)),
    rw applies refl,
  )
  | inr above ↦ elim (first_tier-Answers volume ts d) [
    | inl (best, m, (fits, most), e) ↦
        inl (best, Memᴰ.tail m, (fits, (λ h. absurd (ground arith), most)), rw above e)
    | inr (none_, e) ↦ inr ((ground arith, none_), rw above e)
  ]
]

-- The discount for a volume is the one of a tier with the greatest start that the volume reaches,
-- and there is none when the volume is below every tier.
pub discount_for-Answers :
    (volume : ℕ) (tiers : List VolumeTier) → Answers volume tiers (discount_for volume tiers)
unfolding discount_for
discount_for-Answers volume tiers =
    elim (first_tier-Answers volume (sort_tiers tiers) (Descending-sort_tiers tiers)) [
      | inl (best, m, (fits, most), e) ↦ inl (
        best,
        Memᴰ-sort_tiers best tiers m,
        (
          fits,
          sort_tiers-All (λ t. t.min_volume ≤ volume → t.min_volume ≤ best.min_volume) tiers most,
        ),
        e,
      )
      | inr (none_, e) ↦ inr (sort_tiers-All (λ t. volume < t.min_volume) tiers none_, e)
    ]
