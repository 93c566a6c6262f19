-- ===== src/SafeQueue/Order.antt =====
-- The queue of core/include/safe_queue.h is first in, first out, and uses its nodes rightly.
use conv_event.Base.{
  inl, inr, Bool-cases, ==_iff, ltb, ltb→lt, ℕ, suc, ◌+◌, ◌≤◌, ◌<◌, ◌≡◌, refl, sym, ap, subst, ◌∙◌,
  true, false, List, [], ◌∷◌, ◌++◌, Option, none, some, arith, count, count-append, ◌==◌,
  if◌then◌else◌,
}
use conv_event.SafeQueue.{
  is_empty, SafeQueue, take_node, acquire_node, release_node, link_node, push, pop_to, pop,
}
use conv_event.SafeQueue.Links.{
  Chain, Spare, last_of, Values, redirect, count_self, count-last_of, last_of-append,
  Chain-redirect, Spare-redirect, Values-elsewhere, Values-append, Chain-append,
}

-- The queue holds the items in the nodes `ns` behind its head, and the spare nodes `ps`; all are allocated, and
-- no node stands twice.
pub record Holds (q : SafeQueue) (items : List ℕ) (ns ps : List ℕ) : Type 0 where
  pub chain : Chain q.nodes.next q.head ns
  pub at_end : q.tail ≡ last_of q.head ns
  pub spare : Spare q.nodes.next q.node_pool ps
  pub values : Values q.nodes.data_of ns items
  pub distinct : (p : ℕ) → count p (q.head ∷ ns) + count p ps ≤ 1
  pub below : (p : ℕ) → q.nodes.fresh ≤ p → count p (q.head ∷ ns) + count p ps ≡ 0

-- A node that is neither in the queue nor spare.
abbrev pub Unused : ℕ → SafeQueue → List ℕ → List ℕ → Type 0
Unused n q ns ps = (count n (q.head ∷ ns) + count n ps ≡ 0) × (n < q.nodes.fresh)

added : (p n : ℕ) (f : ℕ → ℕ) → f p ≤ 1 → f n ≡ 0 → f p + (if p == n then 1 else 0) ≤ 1
added p n f once apart = elim (Bool-cases (p == n)) [
  | inl e ↦ let same : f p ≡ f n = ap f ((==_iff p n).0 e) in rw e (omega (arith, same, apart))
  | inr e ↦ rw e (omega (arith, once))
]

older : (n fresh p : ℕ) → n < fresh → fresh ≤ p → ◌≡◌ {A = ℕ} (if p == n then 1 else 0) 0
older n fresh p h l = ground arith

link_node-Holds :
    (q : SafeQueue) (items ns ps : List ℕ) (n x : ℕ)
    → Holds q items ns ps
    → Unused n q ns ps
    → Holds (link_node x n q) (items ++ (x ∷ [])) (ns ++ (n ∷ [])) ps
link_node-Holds q items ns ps n x h (apart, young) =
    let next' = redirect n none q.nodes.next in
    let data' = λ (b : ℕ). if b == n then x else q.nodes.data_of b in
    let not_in : count n (q.head ∷ ns) ≡ 0 = omega (arith, apart) in
    let not_spare : count n ps ≡ 0 = omega (arith, apart) in
    let inside : 1 ≤ count q.tail (q.head ∷ ns) =
      subst (λ t. 1 ≤ count t (q.head ∷ ns)) (sym h.at_end) (count-last_of q.head ns) in
    record {
      chain =
          subst (λ t. Chain (redirect t (some n) next') q.head (ns ++ (n ∷ []))) (sym h.at_end)
            (Chain-append next' q.head ns n
              (Chain-redirect q.nodes.next n none q.head ns h.chain not_in) (ground arith) not_in
              (λ p. omega (arith, h.distinct p)));
      at_end = sym (last_of-append q.head ns n);
      spare =
          Spare-redirect next' q.tail (some n) q.node_pool ps
            (Spare-redirect q.nodes.next n none q.node_pool ps h.spare not_spare)
            (omega (arith, inside, h.distinct q.tail));
      values =
          Values-append data' ns items n x
            (Values-elsewhere q.nodes.data_of n x ns items h.values (omega (arith, not_in)))
            (ground arith);
      distinct = λ p. omega (
        arith,
        count-append p ns (n ∷ []),
        added p n (λ k. count k (q.head ∷ ns) + count k ps) (h.distinct p) apart,
      );
      below = λ p l.
          omega (arith, count-append p ns (n ∷ []), h.below p l, older n q.nodes.fresh p young l);
    }

-- Where `new` makes the node.
new_node-Holds :
    (q : SafeQueue) (items ns ps : List ℕ)
    → Holds q items ns ps
    → let (n, q') = take_node none q in Holds q' items ns ps × Unused n q' ns ps
new_node-Holds q items ns ps h =
    let n = q.nodes.fresh in
    let apart = h.below n (omega arith) in
    (
      record {
        chain = Chain-redirect q.nodes.next n none q.head ns h.chain (omega (arith, apart));
        at_end = h.at_end;
        spare = Spare-redirect q.nodes.next n none q.node_pool ps h.spare (omega (arith, apart));
        values = Values-elsewhere q.nodes.data_of n 0 ns items h.values (omega (arith, apart));
        distinct = h.distinct;
        below = λ p l. h.below p (omega (arith, l));
      },
      (apart, omega arith),
    )

-- Where a spare node is used again.
spare_node-Holds :
    (q : SafeQueue) (items ns ps : List ℕ) (n p : ℕ)
    → q.node_pool ≡ some n
    → Holds q items ns (p ∷ ps)
    → Holds (record q { node_pool = q.nodes.next n }) items ns ps × Unused n q ns ps
spare_node-Holds q items ns ps n p e h =
    let (same, spare) = subst (λ o. Spare q.nodes.next o (p ∷ ps)) e h.spare in
    let here : suc (count n ps) ≡ count n (p ∷ ps) =
      sym (count_self n ps) ∙ ap (λ k. count n (k ∷ ps)) same in
    let once = h.distinct n in
    (
      record {
        chain = h.chain;
        at_end = h.at_end;
        spare = subst (λ k. Spare q.nodes.next (q.nodes.next k) ps) (sym same) spare;
        values = h.values;
        distinct = λ k. omega (arith, h.distinct k);
        below = λ k l. omega (arith, h.below k l);
      },
      (
        omega (arith, here, once),
        elim (Bool-cases (ltb n q.nodes.fresh)) [
          | inl lt ↦ ltb→lt n q.nodes.fresh lt
          | inr not_lt ↦ absurd (young not_lt here)
        ],
      ),
    )
  where
    young : ltb n q.nodes.fresh ≡ false → suc (count n ps) ≡ count n (p ∷ ps) → ⊥
    young not_lt here' =
        let l : q.nodes.fresh ≤ n = ground arith in
        let none_there = h.below n l in omega (arith, here', none_there)

pub take_node-Holds :
    (q : SafeQueue) (items ns ps : List ℕ) (o : Option ℕ)
    → q.node_pool ≡ o
    → Holds q items ns ps
    → let (n, q') = take_node o q in (ps' : List ℕ) × Holds q' items ns ps' × Unused n q' ns ps'
take_node-Holds q items ns ps none e h =
    let (h', unused) = new_node-Holds q items ns ps h in (ps, h', unused)
take_node-Holds q items ns [] (some n) e h = absurd (subst (λ o. Spare q.nodes.next o []) e h.spare)
take_node-Holds q items ns (p ∷ ps) (some n) e h =
    let (h', unused) = spare_node-Holds q items ns ps n p e h in (ps, h', unused)

pub push-Holds :
    (x : ℕ) (q : SafeQueue) (items ns ps : List ℕ)
    → Holds q items ns ps
    → (ns' : List ℕ) × (ps' : List ℕ) × Holds (push x q) (items ++ (x ∷ [])) ns' ps'
unfolding push acquire_node
push-Holds x q items ns ps h =
    let (ps', h', unused) = take_node-Holds q items ns ps q.node_pool refl h in
    let (n, q') = take_node q.node_pool q in
    (ns ++ (n ∷ []), ps', link_node-Holds q' items ns ps' n x h' unused)

-- The node at the head becomes a spare one.
pub pop-Holds :
    (sentinel : ℕ) (q : SafeQueue) (x : ℕ) (items : List ℕ) (n : ℕ) (ns ps : List ℕ)
    → Holds q (x ∷ items) (n ∷ ns) ps
    → let (y, found, q') = pop sentinel q in
      (y ≡ x) × (found ≡ true) × Holds q' items ns (q.head ∷ ps)
unfolding pop release_node
pop-Holds sentinel q x items n ns ps h =
    subst
      (λ o.
        let (y, found, q') = pop_to sentinel o q in
        (y ≡ x) × (found ≡ true) × Holds q' items ns (q.head ∷ ps))
      (sym h.chain.0)
      (
        h.values.0,
        refl,
        record {
          chain =
              Chain-redirect q.nodes.next q.head q.node_pool n ns h.chain.1
                (omega (arith, self, once));
          at_end = h.at_end;
          spare = (
            refl,
            subst (λ o. Spare (redirect q.head q.node_pool q.nodes.next) o ps) (sym back)
                (Spare-redirect q.nodes.next q.head q.node_pool q.node_pool ps h.spare
                  (omega (arith, self, once))),
          );
          values = h.values.1;
          distinct = λ p. omega (arith, h.distinct p);
          below = λ p l. omega (arith, h.below p l);
        },
      )
  where
    self : count q.head (q.head ∷ n ∷ ns) ≡ suc (count q.head (n ∷ ns))
    self = count_self q.head (n ∷ ns)

    once : count q.head (q.head ∷ n ∷ ns) + count q.head ps ≤ 1
    once = h.distinct q.head

    back : redirect q.head q.node_pool q.nodes.next q.head ≡ q.node_pool
    back = ground arith

-- Nothing is there to pop.
pub pop_nothing :
    (sentinel : ℕ) (q : SafeQueue) (ns ps : List ℕ)
    → Holds q [] ns ps
    → pop sentinel q ≡ (sentinel, false, q)
unfolding pop
pop_nothing sentinel q [] ps h = ap (λ o. pop_to sentinel o q) h.chain
pop_nothing sentinel q (n ∷ ns) ps h = absurd h.values

pub is_empty_nothing : (q : SafeQueue) (ns ps : List ℕ) → Holds q [] ns ps → is_empty q ≡ true
unfolding is_empty
is_empty_nothing q [] ps h = rw h.at_end (ground arith)
is_empty_nothing q (n ∷ ns) ps h = absurd h.values

-- The tail is among the nodes behind the head, which are others.
pub is_empty_something :
    (q : SafeQueue) (x : ℕ) (items ns ps : List ℕ) → Holds q (x ∷ items) ns ps → is_empty q ≡ false
unfolding is_empty
is_empty_something q x items [] ps h = absurd h.values
is_empty_something q x items (n ∷ ns) ps h = elim (Bool-cases (q.head == q.tail)) [
  | inl e ↦ absurd (clash ((==_iff q.head q.tail).0 e ∙ h.at_end))
  | inr e ↦ e
]
  where
    clash : q.head ≡ last_of n ns → ⊥
    clash same =
        let inside = subst (λ t. 1 ≤ count t (n ∷ ns)) (sym same) (count-last_of n ns) in
        omega (arith, inside, h.distinct q.head, count_self q.head (n ∷ ns))
