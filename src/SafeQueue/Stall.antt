-- ===== src/SafeQueue/Stall.antt =====
-- A push of core/include/safe_queue.h that has not linked its node yet, and what other threads do then.
use conv_event.Base.{
  inl, inr, Bool-cases, ==_iff, ℕ, suc, ◌≡◌, refl, sym, ap, subst, ◌∙◌, false, List, [], ◌∷◌, ◌++◌,
  Option, none, some, arith, count, ◌==◌, if◌then◌else◌,
}
use conv_event.SafeQueue.{SafeQueue, take_node, link_node, link_tail, acquire_node, push, is_empty}
use conv_event.SafeQueue.Links.{Next, redirect, count_self}
use conv_event.SafeQueue.Order.{Holds, take_node-Holds, push-Holds, is_empty_something}

-- Links of different nodes may be set in either order.
redirect_swap :
    (p a : ℕ) (v w : Option ℕ) (next : Next)
    → (p == a) ≡ false
    → redirect a v (redirect p w next) ≡ redirect p w (redirect a v next)
redirect_swap p a v w next apart = λ i b. at_node b i
  where
    at_node : (b : ℕ) → redirect a v (redirect p w next) b ≡ redirect p w (redirect a v next) b
    at_node b = ground arith

take_node-link_tail :
    (p n : ℕ) (q : SafeQueue) (o : Option ℕ)
    → (p == (take_node o q).0) ≡ false
    → take_node o (link_tail p n q) ≡ ((take_node o q).0, link_tail p n (take_node o q).1)
take_node-link_tail p n q none apart =
    ap
      (λ next. (
        q.nodes.fresh,
        record q {
          nodes = record {
            data_of = λ b. if b == q.nodes.fresh then 0 else q.nodes.data_of b;
            next = next;
            fresh = suc q.nodes.fresh;
          };
        },
      ))
      (redirect_swap p q.nodes.fresh none (some n) q.nodes.next apart)
take_node-link_tail p n q (some m) apart =
    ap (λ o. (m, record (link_tail p n q) { node_pool = o })) at_node
  where
    at_node : redirect p (some n) q.nodes.next m ≡ q.nodes.next m
    at_node = ground arith

link_node-link_tail :
    (p n y m : ℕ) (q : SafeQueue)
    → (p == m) ≡ false
    → (p == q.tail) ≡ false
    → link_node y m (link_tail p n q) ≡ link_tail p n (link_node y m q)
link_node-link_tail p n y m q apart before =
    ap
      (λ next. record q {
        nodes = record {
          data_of = λ b. if b == m then y else q.nodes.data_of b;
          next = next;
          fresh = q.nodes.fresh;
        };
        tail = m;
      })
      (ap (redirect q.tail (some m)) (redirect_swap p m none (some n) q.nodes.next apart)
        ∙ redirect_swap p q.tail (some m) (some n) (redirect m none q.nodes.next) before)

pub take_node_tail : (o : Option ℕ) (q : SafeQueue) → (take_node o q).1.tail ≡ q.tail
take_node_tail none q = refl
take_node_tail (some m) q = refl

pub take_node_next :
    (o : Option ℕ) (q : SafeQueue) (p : ℕ)
    → q.nodes.next p ≡ none
    → (take_node o q).1.nodes.next p ≡ none
take_node_next none q p h = ground arith
take_node_next (some m) q p h = h

-- A push in the middle of another one's.
push-link_tail :
    (p n y : ℕ) (q : SafeQueue)
    → (p == (take_node q.node_pool q).0) ≡ false
    → (p == q.tail) ≡ false
    → push y (link_tail p n q) ≡ link_tail p n (push y q)
unfolding push acquire_node
push-link_tail p n y q apart before =
    ap (λ r. link_node y r.0 r.1) (take_node-link_tail p n q q.node_pool apart)
    ∙ link_node-link_tail p n y (take_node q.node_pool q).0 (take_node q.node_pool q).1 apart
        (ap (λ t. p == t) (take_node_tail q.node_pool q) ∙ before)

outside : (a m : ℕ) (ns : List ℕ) → count m (a ∷ ns) ≡ 0 → (a == m) ≡ false
outside a m ns h = elim (Bool-cases (a == m)) [
  | inl e ↦ absurd (clash ((==_iff a m).0 e))
  | inr e ↦ e
]
  where
    clash : a ≡ m → ⊥
    clash same =
        let self = count_self a ns in let there = ap (λ k. count k (a ∷ ns)) same in omega arith

take_node_apart :
    (o : Option ℕ) (q : SafeQueue) (items ns ps : List ℕ)
    → q.node_pool ≡ o
    → Holds q items ns ps
    → (q.head == (take_node o q).0) ≡ false
take_node_apart none q items ns ps e h =
    let (ps', h', unused) = take_node-Holds q items ns ps none e h in
    outside q.head q.nodes.fresh ns (omega (arith, unused.0))
take_node_apart (some m) q items ns ps e h =
    let (ps', h', unused) = take_node-Holds q items ns ps (some m) e h in
    outside q.head m ns (omega (arith, unused.0))

take_node_same :
    (o : Option ℕ) (p n : ℕ) (q : SafeQueue) → (take_node o (link_tail p n q)).0 ≡ (take_node o q).0
take_node_same none p n q = refl
take_node_same (some m) p n q = refl

pub take_node_head : (o : Option ℕ) (q : SafeQueue) → (take_node o q).1.head ≡ q.head
take_node_head none q = refl
take_node_head (some m) q = refl

-- The head leads nowhere, and would lead to all the items if the node `n` were linked behind it.
pub record Stalled (n : ℕ) (q : SafeQueue) (items ns ps : List ℕ) : Type 0 where
  pub nothing : q.nodes.next q.head ≡ none
  pub linked : Holds (link_tail q.head n q) items ns ps

pub push_head : (y : ℕ) (q : SafeQueue) → (push y q).head ≡ q.head
unfolding push acquire_node
push_head y q = take_node_head q.node_pool q

push_next :
    (y p : ℕ) (q : SafeQueue)
    → q.nodes.next p ≡ none
    → (p == q.tail) ≡ false
    → (push y q).nodes.next p ≡ none
unfolding push acquire_node
push_next y p q h before =
    let n = (take_node q.node_pool q).0 in
    let same = take_node_tail q.node_pool q in
    let old = take_node_next q.node_pool q p h in
    ap (λ t. redirect t (some n) (redirect n none (take_node q.node_pool q).1.nodes.next) p) same
    ∙ ground arith

pub push-Stalled :
    (n y x : ℕ) (q : SafeQueue) (items ns ps : List ℕ)
    → Stalled n q (x ∷ items) ns ps
    → (ns' : List ℕ) × (ps' : List ℕ) × Stalled n (push y q) (x ∷ (items ++ (y ∷ []))) ns' ps'
unfolding is_empty
push-Stalled n y x q items ns ps h =
    let apart =
      take_node_apart q.node_pool (link_tail q.head n q) (x ∷ items) ns ps refl h.linked in
    let apart' : (q.head == (take_node q.node_pool q).0) ≡ false =
      ap (λ m. q.head == m) (sym (take_node_same q.node_pool q.head n q)) ∙ apart in
    let before = is_empty_something (link_tail q.head n q) x items ns ps h.linked in
    let (ns', ps', h') = push-Holds y (link_tail q.head n q) (x ∷ items) ns ps h.linked in
    (
      ns',
      ps',
      record {
        nothing = ap (push y q).nodes.next (push_head y q) ∙ push_next y q.head q h.nothing before;
        linked =
            subst (λ p. Holds (link_tail p n (push y q)) (x ∷ (items ++ (y ∷ []))) ns' ps')
              (sym (push_head y q))
              (subst (λ r. Holds r (x ∷ (items ++ (y ∷ []))) ns' ps')
                (push-link_tail q.head n y q apart' before) h');
      },
    )
