-- ===== src/Http/Filters.antt =====
-- The tree of filters of http/http_conn.h: `_register_filter`, `match` and filter::node. Every node
-- is reached from one place, so a tree by value stands for the nodes that the shared pointers own.
pub mod Matching
pub mod Separation
use conv_event.Base.{
  ℕ, suc, Bool, true, false, List, [], ◌∷◌, Option, none, some, Bytes, ltb, ◌==◌, if◌then◌else◌,
  text_eq, drop_last,
}

-- Filters are objects; `ℕ` names them.
mutual
  pub data Node : Type 0 where
    node : Children → Option ℕ → Node

  pub data Children : Type 0 where
    leaf : Children
    child : Bytes → Node → Children → Children

-- `'/'` and `'*'`.
abbrev pub slash : ℕ
slash = 47

abbrev pub star : ℕ
star = 42

abbrev pub is_slash : ℕ → Bool
is_slash c = c == slash

abbrev pub filter_of : Node → Option ℕ
filter_of (node children f) = f

abbrev pub set_filter : ℕ → Node → Node
set_filter f (node children g) = node children (some f)

-- `std::make_shared<filter::node>()`
abbrev pub empty_node : Node
empty_node = node leaf none

-- `children.find(s)`
unfoldable pub find_child : Bytes → Children → Option Node
find_child s leaf = none
find_child s (child t n rest) = if text_eq s t then some n else find_child s rest

-- `children[s] = n`
unfoldable pub set_child : Bytes → Node → Children → Children
set_child s n leaf = child s n leaf
set_child s n (child t m rest) =
    if text_eq s t then child t n rest else child t m (set_child s n rest)

-- The parts of the path between slashes, of which there is at least one.
unfoldable pub segments : Bytes → Bytes × List Bytes
segments [] = ([], [])
segments (c ∷ text) =
    let (s, rest) = segments text in if is_slash c then ([], s ∷ rest) else (c ∷ s, rest)

-- The loop of `_register_filter` and what follows it: each segment gets a new node in place of the one
-- it has.
unfoldable pub graft : Bytes → List Bytes → ℕ → Node → Node
graft s [] f (node children g) =
    if text_eq s (star ∷ [])
    then node children (some f)
    else node (set_child s (node leaf (some f)) children) g
graft s (s' ∷ rest) f (node children g) = node (set_child s (graft s' rest f empty_node) children) g

unfoldable pub last_is_slash : Bytes → Bool
last_is_slash [] = false
last_is_slash (c ∷ []) = is_slash c
last_is_slash (c ∷ d ∷ text) = last_is_slash (d ∷ text)

-- `register_filter` of a url that begins with a slash; `d` is the character after it.
unfoldable pub register_below : Bytes → ℕ → ℕ → Node → Node
unfolding graft segments last_is_slash
register_below path d f root =
    if last_is_slash path
    then root
    else if d == star
    then set_filter f root
    else let (s, rest) = segments path in graft s rest f root

unfoldable pub register_filter : Bytes → ℕ → Node → Node
unfolding register_below
register_filter [] f root = root
register_filter (c ∷ []) f root = root
register_filter (c ∷ d ∷ text) f root =
    if is_slash c then register_below (d ∷ text) d f root else root

-- The last lookup: a node that is missing leaves the filter found so far, one without a filter
-- replaces it by null.
unfoldable pub last_step : Bytes → Option ℕ → Node → Option ℕ
last_step s tmp (node children g) = elim (find_child s children) [
  | none ↦ tmp
  | some n ↦ filter_of n
]

-- `url.substr(pre,pos-pre-1)` where `pos` is the slash at the end of the url: without its last
-- character, but where there is none the length wraps around, and the slash itself is what is left.
unfoldable pub shorten : Bytes → Bytes
unfolding drop_last
shorten [] = slash ∷ []
shorten (c ∷ s) = drop_last (c ∷ s)

-- The loop of `match` and what follows it.
unfoldable pub walk : Bytes → List Bytes → Option ℕ → Node → Option ℕ
unfolding last_step shorten find_child
walk s [] tmp n = last_step s tmp n
walk s ([] ∷ []) tmp n = last_step (shorten s) tmp n
walk s ((c ∷ s') ∷ []) tmp (node children g) = elim (find_child s children) [
  | none ↦ tmp
  | some m ↦ walk (c ∷ s') [] (filter_of m) m
]
walk s (s' ∷ s'' ∷ rest) tmp (node children g) = elim (find_child s children) [
  | none ↦ tmp
  | some m ↦ walk s' (s'' ∷ rest) (filter_of m) m
]

unfoldable pub match_filter : Bytes → Node → Option ℕ
unfolding walk segments
match_filter [] root = none
match_filter (c ∷ text) root =
    if is_slash c
    then elim text [
      | [] ↦ walk [] [] (filter_of root) root
      | d ∷ text' ↦
          if d == star
          then filter_of root
          else let (s, rest) = segments (d ∷ text') in walk s rest (filter_of root) root
    ]
    else none
