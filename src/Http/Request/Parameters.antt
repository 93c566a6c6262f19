-- ===== src/Http/Request/Parameters.antt =====
-- The parameters that `parse_header` reads from a url (http/http_conn.h).
use conv_event.Base.{
  ℕ, zero, suc, ◌≡◌, refl, ap, ◌∙◌, List, [], ◌∷◌, ◌++◌, append_assoc, Option, none, some, Bytes,
  length, NoneOf, split_at, split_at-none, split_at-append, emplace,
}
use conv_event.Http.Request.{query, from_start, is_amp, is_amp_or_equal}

abbrev pub Pair : Type 0
Pair = Bytes × Bytes

-- `k=v`
abbrev pub print_pair : Pair → Bytes
print_pair (k, v) = k ++ (61 ∷ v)

-- `k=v&…`
abbrev pub print_pairs : Pair → List Pair → Bytes
print_pairs p [] = print_pair p
print_pairs p (q ∷ rest) = print_pair p ++ (38 ∷ print_pairs q rest)

abbrev pub Plain : List Pair → Type 0
Plain [] = Unit
Plain ((k, v) ∷ rest) = NoneOf is_amp_or_equal k × NoneOf is_amp v × Plain rest

abbrev pub emplace_all : List Pair → List Pair → List Pair
emplace_all [] parameters = parameters
emplace_all ((k, v) ∷ rest) parameters = emplace_all rest (emplace k v parameters)

abbrev second_half : ℕ → Bytes → List Pair → Bytes → Bytes × Option Bytes → Option (List Pair)
second_half fuel url parameters key x = elim (x.1) [
  | none ↦ some (emplace key x.0 parameters)
  | some rest ↦ query fuel url rest (emplace key x.0 parameters)
]

-- One round, by what its two searches find.
query_round :
    (fuel : ℕ) (url rest : Bytes) (parameters : List Pair) (key : Bytes) (after : Option Bytes)
    (found : Bytes × Option Bytes)
    → split_at is_amp_or_equal rest ≡ (key, after)
    → split_at is_amp (from_start after url) ≡ found
    → query (suc fuel) url rest parameters ≡ second_half fuel url parameters key found
unfolding query
query_round fuel url rest parameters key after found e e' =
    ap
      (λ (x : Bytes × Option Bytes).
        second_half fuel url parameters x.0 (split_at is_amp (from_start x.1 url)))
      e
    ∙ ap (second_half fuel url parameters key) e'

-- Parameters whose keys have no `&` or `=` and whose values have no `&` are read back in the order
-- in which they stand, the first value of a key kept, in as many rounds as there are parameters.
pub query-print_pairs :
    (url : Bytes) (p : Pair) (rest parameters : List Pair)
    → Plain (p ∷ rest)
    → query (suc (length rest)) url (print_pairs p rest) parameters
      ≡ some (emplace_all (p ∷ rest) parameters)
query-print_pairs url (k, v) [] parameters (hk, hv, _) =
    query_round 0 url (k ++ (61 ∷ v)) parameters k (some v) (v, none)
      (split_at-append is_amp_or_equal k 61 v hk refl) (split_at-none is_amp v hv)
query-print_pairs url (k, v) (q ∷ rest) parameters (hk, hv, h) =
    let more = print_pairs q rest in
    query_round (suc (length rest)) url (print_pairs (k, v) (q ∷ rest)) parameters k
      (some (v ++ (38 ∷ more))) (v, some more)
      (rw (append_assoc k (61 ∷ v) (38 ∷ more))
        (split_at-append is_amp_or_equal k 61 (v ++ (38 ∷ more)) hk refl))
      (split_at-append is_amp v 38 more hv refl)
    ∙ query-print_pairs url q rest (emplace k v parameters) h

-- A parameter without `=` at the end of a url whose part after its first `&` has neither another
-- `&` nor a `=` is never left: the loop starts again at the start of the url, whatever number of
-- rounds it is given.
pub query_loops :
    (fuel : ℕ) (p q rest : Bytes) (parameters : List Pair)
    → NoneOf is_amp p
    → NoneOf is_amp_or_equal q
    → NoneOf is_amp_or_equal rest
    → query fuel (p ++ (38 ∷ q)) rest parameters ≡ none
unfolding query
query_loops zero p q rest parameters hp hq hr = refl
query_loops (suc fuel) p q rest parameters hp hq hr =
    query_round fuel (p ++ (38 ∷ q)) rest parameters rest none (p, some q)
      (split_at-none is_amp_or_equal rest hr) (split_at-append is_amp p 38 q hp refl)
    ∙ query_loops fuel p q q (emplace rest p parameters) hp hq hq
