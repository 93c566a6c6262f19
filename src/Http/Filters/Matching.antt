-- ===== src/Http/Filters/Matching.antt =====
-- What `match` finds in the tree that `_register_filter` builds (http/http_conn.h).
use conv_event.Base.{
  subst, append_assoc, ℕ, ◌≡◌, refl, ◌∙◌, false, List, [], ◌∷◌, ◌++◌, Option, none, some, arith,
  Bytes, ◌==◌, text_eq, text_eq_refl, text_eq→eq, all_false, NoneOf,
}
use conv_event.Http.Filters.{
  Node, Children, node, leaf, child, slash, star, is_slash, filter_of, empty_node, find_child,
  set_child, segments, graft, last_is_slash, register_below, register_filter, last_step, walk,
  match_filter,
}

find-set : (s : Bytes) (n : Node) (c : Children) → find_child s (set_child s n c) ≡ some n
unfolding find_child set_child
find-set s n leaf = ground (arith, text_eq_refl s)
find-set s n (child t m rest) = ground (arith, text_eq_refl s, find-set s n rest)

pub find-set_ne :
    (s t : Bytes) (n : Node) (c : Children)
    → text_eq t s ≡ false
    → find_child t (set_child s n c) ≡ find_child t c
unfolding find_child set_child
find-set_ne s t n leaf h = ground arith
find-set_ne s t n (child u m rest) h =
    ground (arith, find-set_ne s t n rest, text_eq→eq s u, text_eq→eq t u)

pub segments-append :
    (p q : Bytes)
    → segments (p ++ (slash ∷ q))
      ≡ ((segments p).0, (segments p).1 ++ ((segments q).0 ∷ (segments q).1))
unfolding segments
segments-append [] q = refl
segments-append (c ∷ p) q = ground (arith, segments-append p q)

pub segments-none : (s : Bytes) → NoneOf is_slash s → segments s ≡ (s, [])
unfolding segments all_false
segments-none [] h = refl
segments-none (c ∷ s) h = ground (arith, segments-none s)

-- Below the segments that two urls share, everything is new.
walk-graft :
    (s : Bytes) (rest : List Bytes) (y : Bytes) (c : ℕ) (x : Bytes) (f : ℕ) (tmp : Option ℕ)
    (n : Node)
    → walk s (rest ++ ((c ∷ x) ∷ [])) tmp (graft s (rest ++ (y ∷ [])) f n)
      ≡ last_step (c ∷ x) (filter_of (graft y [] f empty_node)) (graft y [] f empty_node)
unfolding walk graft
walk-graft s [] y c x f tmp (node ch g) = ground (arith, find-set s (graft y [] f empty_node) ch)
walk-graft s (r ∷ []) y c x f tmp (node ch g) = ground (
  arith,
  find-set s (graft r (y ∷ []) f empty_node) ch,
  walk-graft r [] y c x f (filter_of (graft r (y ∷ []) f empty_node)) empty_node,
)
walk-graft s (r ∷ q ∷ rest) y c x f tmp (node ch g) = ground (
  arith,
  find-set s (graft r (q ∷ rest ++ (y ∷ [])) f empty_node) ch,
  walk-graft r (q ∷ rest) y c x f (filter_of (graft r (q ∷ rest ++ (y ∷ [])) f empty_node))
      empty_node,
)

-- A url is a slash and what follows it. `walk` and `graft` start from the root at its segments.
pub match_below :
    (text : Bytes) (d : ℕ) (root : Node)
    → (d == star) ≡ false
    → match_filter (slash ∷ d ∷ text) root
      ≡ walk (segments (d ∷ text)).0 (segments (d ∷ text)).1 (filter_of root) root
unfolding match_filter
match_below text d root h = rw h

pub register_graft :
    (text : Bytes) (d f : ℕ) (root : Node)
    → (d == star) ≡ false
    → last_is_slash (d ∷ text) ≡ false
    → register_filter (slash ∷ d ∷ text) f root
      ≡ graft (segments (d ∷ text)).0 (segments (d ∷ text)).1 f root
unfolding register_filter register_below
register_graft text d f root h e = rw (e, h)

-- A text of no slash after a slash ends a url without one.
last-append :
    (p : Bytes) (c : ℕ) (x : Bytes) → NoneOf is_slash (c ∷ x) → last_is_slash (p ++ (c ∷ x)) ≡ false
unfolding last_is_slash all_false
last-append [] c [] h = ground arith
last-append [] c (d ∷ x) h = ground (arith, last-append [] d x)
last-append (b ∷ []) c x h = last-append [] c x h
last-append (b ∷ d ∷ p) c x h = last-append (d ∷ p) c x h

last-below :
    (p : Bytes) (e c : ℕ) (x : Bytes)
    → NoneOf is_slash (c ∷ x)
    → last_is_slash (p ++ (e ∷ c ∷ x)) ≡ false
last-below p e c x h =
    subst (λ t. last_is_slash t ≡ false) (append_assoc p (e ∷ []) (c ∷ x))
      (last-append (p ++ (e ∷ [])) c x h)

-- The parts of the url `d p / x`.
abbrev pub below : ℕ → Bytes → Bytes → Bytes
below d p x = slash ∷ d ∷ p ++ (slash ∷ x)

segments_below :
    (d : ℕ) (p x : Bytes)
    → NoneOf is_slash x
    → segments (d ∷ p ++ (slash ∷ x)) ≡ ((segments (d ∷ p)).0, (segments (d ∷ p)).1 ++ (x ∷ []))
segments_below d p x h = rw (segments-append (d ∷ p) x, segments-none x h)

match_registered :
    (d : ℕ) (p x y : Bytes) (c b f : ℕ) (root : Node)
    → (d == star) ≡ false
    → NoneOf is_slash (c ∷ x)
    → NoneOf is_slash (b ∷ y)
    → match_filter (below d p (c ∷ x)) (register_filter (below d p (b ∷ y)) f root)
      ≡ last_step
          (c ∷ x)
          (filter_of (graft (b ∷ y) [] f empty_node))
          (graft (b ∷ y) [] f empty_node)
match_registered d p x y c b f root h hx hy =
    rw
      (
        register_graft (p ++ (slash ∷ b ∷ y)) d f root h (last-below (d ∷ p) slash b y hy),
        match_below (p ++ (slash ∷ c ∷ x)) d
            (graft (segments (d ∷ p ++ (slash ∷ b ∷ y))).0 (segments (d ∷ p ++ (slash ∷ b ∷ y))).1 f
              root)
            h,
        segments_below d p (c ∷ x) hx,
        segments_below d p (b ∷ y) hy,
      )
      (walk-graft (segments (d ∷ p)).0 (segments (d ∷ p)).1 (b ∷ y) c x f
        (filter_of (graft (segments (d ∷ p)).0 ((segments (d ∷ p)).1 ++ ((b ∷ y) ∷ [])) f root))
        root)

-- A filter is found under the url with which it was registered, whatever the tree held before. The
-- url has two segments or more and does not begin with `/*`, and its last segment is not empty and
-- not `*`.
pub match-register_filter :
    (d : ℕ) (p x : Bytes) (c f : ℕ) (root : Node)
    → (d == star) ≡ false
    → NoneOf is_slash (c ∷ x)
    → text_eq (c ∷ x) (star ∷ []) ≡ false
    → match_filter (below d p (c ∷ x)) (register_filter (below d p (c ∷ x)) f root) ≡ some f
unfolding graft last_step set_child find_child
match-register_filter d p x c f root h hx hs =
    match_registered d p x x c c f root h hx hx ∙ ground (arith, text_eq_refl (c ∷ x))

-- A filter registered under `/p/*` is found right after under every url `/p/x` whose last segment
-- is not empty, whatever the tree held before. The urls do not begin with `/*`.
pub match-register_wildcard :
    (d : ℕ) (p x : Bytes) (c f : ℕ) (root : Node)
    → (d == star) ≡ false
    → NoneOf is_slash (c ∷ x)
    → match_filter (below d p (c ∷ x)) (register_filter (below d p (star ∷ [])) f root) ≡ some f
unfolding graft last_step find_child all_false text_eq
match-register_wildcard d p x c f root h hx = match_registered d p x [] c star f root h hx refl

-- Registering a filter under `/p/y` makes every other url `/p/x` without a filter, whichever
-- filters the tree held before: the nodes on the way are replaced by new ones. The last segments
-- are not empty, `y` is not `*`, and the urls do not begin with `/*`.
pub register_filter_drops :
    (d : ℕ) (p x y : Bytes) (c b f : ℕ) (root : Node)
    → (d == star) ≡ false
    → NoneOf is_slash (c ∷ x)
    → NoneOf is_slash (b ∷ y)
    → text_eq (b ∷ y) (star ∷ []) ≡ false
    → text_eq (c ∷ x) (b ∷ y) ≡ false
    → match_filter (below d p (c ∷ x)) (register_filter (below d p (b ∷ y)) f root) ≡ none
unfolding graft last_step set_child find_child
register_filter_drops d p x y c b f root h hx hy hs ne =
    match_registered d p x y c b f root h hx hy ∙ ground arith
