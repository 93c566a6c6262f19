-- ===== src/Multi/Choice.antt =====
-- The choice of a reactor in core/include/acceptor.h.
use conv_event.Base.{
  ℕ, zero, suc, ◌+◌, ◌≤◌, ◌<◌, ◌-◌, ◌^◌, ◌≡◌, refl, sym, subst, ◌⊎◌, inl, inr, List, [], ◌∷◌, arith,
  length, ltb, Bool-cases,
}
use conv_event.Multi.Acceptor.{least_from, least_loaded}

abbrev pub size_at : ℕ → List ℕ → ℕ
size_at k [] = 0
size_at zero (size ∷ sizes) = size
size_at (suc k) (size ∷ sizes) = size_at k sizes

abbrev pub AllFrom : ℕ → List ℕ → Type 0
AllFrom n [] = Unit {0}
AllFrom n (size ∷ sizes) = (n ≤ size) × AllFrom n sizes

-- The loop keeps its index, or moves to the place of a least size below its bound.
abbrev Chosen : ℕ → List ℕ → ℕ → ℕ → ℕ → Type 0
Chosen i sizes least index found =
    ((found ≡ index) × AllFrom least sizes)
    ⊎ ((k : ℕ) × (found ≡ i + k)
        × (k < length sizes)
        × (size_at k sizes < least)
        × AllFrom (size_at k sizes) sizes)

Chosen-later :
    (i size : ℕ) (sizes : List ℕ) (least index found : ℕ)
    → least ≤ size
    → Chosen (suc i) sizes least index found
    → Chosen i (size ∷ sizes) least index found
Chosen-later i size sizes least index found h (inl (e, all)) = inl (e, (h, all))
Chosen-later i size sizes least index found h (inr (k, e, inside, below, all)) =
    inr (suc k, omega arith, omega arith, below, (omega arith, all))

Chosen-here :
    (i size : ℕ) (sizes : List ℕ) (least index found : ℕ)
    → size < least
    → Chosen (suc i) sizes size i found
    → Chosen i (size ∷ sizes) least index found
Chosen-here i size sizes least index found h (inl (e, all)) =
    inr (0, omega arith, omega arith, h, (omega arith, all))
Chosen-here i size sizes least index found h (inr (k, e, inside, below, all)) =
    inr (suc k, omega arith, omega arith, omega arith, (omega arith, all))

least_from-Chosen :
    (i : ℕ) (sizes : List ℕ) (least index : ℕ)
    → Chosen i sizes least index (least_from i sizes least index)
unfolding least_from
least_from-Chosen i [] least index = inl (refl, tt)
least_from-Chosen i (size ∷ sizes) least index = elim (Bool-cases (ltb size least)) [
  | inl less ↦ rw less (
      Chosen-here i size sizes least index _ (ground arith)
        (least_from-Chosen (suc i) sizes size i))
  | inr more ↦ rw more (
      Chosen-later i size sizes least index _ (ground arith)
        (least_from-Chosen (suc i) sizes least index))
]

Chosen-least :
    (size : ℕ) (sizes : List ℕ) (found : ℕ)
    → size < 2 ^ 31 - 1
    → Chosen 0 (size ∷ sizes) (2 ^ 31 - 1) 0 found
    → (found < length (size ∷ sizes)) × AllFrom (size_at found (size ∷ sizes)) (size ∷ sizes)
Chosen-least size sizes found h (inl (e, all)) = absurd (omega arith)
Chosen-least size sizes found h (inr (k, e, inside, below, all)) =
    let e' : found ≡ k = omega arith in
    subst (λ n. (n < length (size ∷ sizes)) × AllFrom (size_at n (size ∷ sizes)) (size ∷ sizes))
      (sym e') (inside, all)

-- The reactor that takes a new descriptor exists, and none has a table of fewer entries. There is one
-- reactor at least, and the size of the first one's table is below INT32_MAX.
pub least_loaded_lem :
    (size : ℕ) (sizes : List ℕ)
    → size < 2 ^ 31 - 1
    → (least_loaded (size ∷ sizes) < length (size ∷ sizes))
      × AllFrom (size_at (least_loaded (size ∷ sizes)) (size ∷ sizes)) (size ∷ sizes)
unfolding least_loaded
least_loaded_lem size sizes h =
    Chosen-least size sizes (least_loaded (size ∷ sizes)) h
      (least_from-Chosen 0 (size ∷ sizes) (2 ^ 31 - 1) 0)
