-- ===== src/SafeQueue/Links.antt =====
-- Chains of nodes, as core/include/safe_queue.h links them.
use conv_event.Base.{
  inl, inr, Bool-cases, ==_iff, ℕ, suc, ◌≤◌, ◌≡◌, refl, sym, ap, subst, ◌∙◌, List, [], ◌∷◌, ◌++◌,
  Option, none, some, arith, count, ◌==◌, if◌then◌else◌,
}

abbrev pub Next : Type 0
Next = ℕ → Option ℕ

abbrev pub redirect : ℕ → Option ℕ → Next → Next
redirect a n next = λ b. if b == a then n else next b

-- From `a` the links lead through the list to null.
abbrev pub Chain : Next → ℕ → List ℕ → Type 0
Chain next a [] = next a ≡ none
Chain next a (n ∷ ns) = (next a ≡ some n) × Chain next n ns

-- The same from a pointer that may be null.
abbrev pub Spare : Next → Option ℕ → List ℕ → Type 0
Spare next none [] = Unit {0}
Spare next none (p ∷ ps) = ⊥
Spare next (some n) [] = ⊥
Spare next (some n) (p ∷ ps) = (n ≡ p) × Spare next (next p) ps

abbrev pub last_of : ℕ → List ℕ → ℕ
last_of a [] = a
last_of a (n ∷ ns) = last_of n ns

-- The values that the nodes hold.
abbrev pub Values : (ℕ → ℕ) → List ℕ → List ℕ → Type 0
Values data_of [] [] = Unit {0}
Values data_of [] (x ∷ items) = ⊥
Values data_of (n ∷ ns) [] = ⊥
Values data_of (n ∷ ns) (x ∷ items) = (data_of n ≡ x) × Values data_of ns items

pub count-last_of : (a : ℕ) (ns : List ℕ) → 1 ≤ count (last_of a ns) (a ∷ ns)
count-last_of a [] = ground arith
count-last_of a (n ∷ ns) = omega (arith, count-last_of n ns)

pub last_of-append : (a : ℕ) (ns : List ℕ) (n : ℕ) → last_of a (ns ++ (n ∷ [])) ≡ n
last_of-append a [] n = refl
last_of-append a (m ∷ ns) n = last_of-append m ns n

-- A link elsewhere does not matter.
pub Chain-redirect :
    (next : Next) (k : ℕ) (v : Option ℕ) (a : ℕ) (ns : List ℕ)
    → Chain next a ns
    → count k (a ∷ ns) ≡ 0
    → Chain (redirect k v next) a ns
Chain-redirect next k v a [] h c = ground arith
Chain-redirect next k v a (n ∷ ns) (h, hs) c =
    (ground arith, Chain-redirect next k v n ns hs (omega arith))

pub Spare-redirect :
    (next : Next) (k : ℕ) (v o : Option ℕ) (ps : List ℕ)
    → Spare next o ps
    → count k ps ≡ 0
    → Spare (redirect k v next) o ps
Spare-redirect next k v none [] h c = h
Spare-redirect next k v none (p ∷ ps) h c = h
Spare-redirect next k v (some n) [] h c = h
Spare-redirect next k v (some n) (p ∷ ps) (e, h) c =
    let same : (if p == k then v else next p) ≡ next p = ground arith in
    (
      e,
      subst (λ o. Spare (redirect k v next) o ps) (sym same)
          (Spare-redirect next k v (next p) ps h (omega arith)),
    )

pub Values-elsewhere :
    (data_of : ℕ → ℕ) (k y : ℕ) (ns items : List ℕ)
    → Values data_of ns items
    → count k ns ≡ 0
    → Values (λ b. if b == k then y else data_of b) ns items
Values-elsewhere data_of k y [] [] h c = h
Values-elsewhere data_of k y [] (x ∷ items) h c = h
Values-elsewhere data_of k y (n ∷ ns) [] h c = h
Values-elsewhere data_of k y (n ∷ ns) (x ∷ items) (e, h) c =
    (ground arith, Values-elsewhere data_of k y ns items h (omega arith))

pub Values-append :
    (data_of : ℕ → ℕ) (ns items : List ℕ) (n x : ℕ)
    → Values data_of ns items
    → data_of n ≡ x
    → Values data_of (ns ++ (n ∷ [])) (items ++ (x ∷ []))
Values-append data_of [] [] n x h e = (e, tt)
Values-append data_of [] (y ∷ items) n x h e = absurd h
Values-append data_of (m ∷ ns) [] n x h e = absurd h
Values-append data_of (m ∷ ns) (y ∷ items) n x (e', h) e =
    (e', Values-append data_of ns items n x h e)

pub count_self : (a : ℕ) (xs : List ℕ) → count a (a ∷ xs) ≡ suc (count a xs)
count_self a xs = ground arith

redirect_other :
    (next : Next) (l : ℕ) (v : Option ℕ) (a : ℕ) (xs : List ℕ)
    → count a xs ≡ 0
    → 1 ≤ count l xs
    → redirect l v next a ≡ next a
redirect_other next l v a xs c inside = elim (Bool-cases (a == l)) [
  | inl e ↦ absurd (clash ((==_iff a l).0 e))
  | inr e ↦ rw e refl
]
  where
    clash : a ≡ l → ⊥
    clash h = let same = ap (λ k. count k xs) h in omega (arith, same)

-- A node that leads to null is linked behind the last one.
pub Chain-append :
    (next : Next) (a : ℕ) (ns : List ℕ) (n : ℕ)
    → Chain next a ns
    → next n ≡ none
    → count n (a ∷ ns) ≡ 0
    → ((p : ℕ) → count p (a ∷ ns) ≤ 1)
    → Chain (redirect (last_of a ns) (some n) next) a (ns ++ (n ∷ []))
Chain-append next a [] n h e c d = (ground arith, ground arith)
Chain-append next a (m ∷ ns) n (h, hs) e c d =
    let inside = count-last_of m ns in
    let once = d a in
    let apart : count a (m ∷ ns) ≡ 0 = omega (arith, once, count_self a (m ∷ ns)) in
    (
      redirect_other next (last_of m ns) (some n) a (m ∷ ns) apart inside ∙ h,
      Chain-append next m ns n hs e (omega arith) (λ p. omega (arith, d p)),
    )
