-- ===== src/Http/Body/Form.antt =====
-- Forms, as `parse_body` of http/http_conn.h reads them.
use conv_event.Base.{
  ◌≡◌, refl, ap, ◌∙◌, true, List, [], ◌∷◌, ◌++◌, Option, some, Bytes, codes, all_false, NoneOf,
  NoneOf-append, split_at-append, assign, lookup,
}
use conv_event.Http.Body.{
  clear_body, is_ampersand, is_equals, value_of, read_form, parse_form, parse_body, parse_typed,
}
use conv_event.Base.{find, find_at, is_prefix}
use conv_event.Http.ContentLength.{first_value}
use conv_event.Http.HeaderLines.{getlines}
use conv_event.Http.HeaderLines.Fields.{getlines-append, getlines-none}
use conv_event.Http.Request.Parameters.{Pair, print_pair, print_pairs}

-- A key has no `&` and no `=`, a value no `&`.
abbrev pub IsForm : List Pair → Type 0
IsForm [] = Unit {0}
IsForm ((key, value) ∷ rest) =
    NoneOf is_ampersand key × NoneOf is_equals key × NoneOf is_ampersand value × IsForm rest

abbrev pub assign_pairs : List Pair → List Pair → List Pair
assign_pairs [] form = form
assign_pairs ((key, value) ∷ rest) form = assign_pairs rest (assign key value form)

read_pair :
    (key value : Bytes) (lines : List Bytes) (form : List Pair)
    → NoneOf is_equals key
    → read_form (print_pair (key, value) ∷ lines) form ≡ read_form lines (assign key value form)
unfolding read_form
read_pair [] value lines form h =
    ap (λ (x : Bytes × Option Bytes). read_form lines (assign x.0 (value_of (61 ∷ value) x.1) form))
      (split_at-append is_equals [] 61 value h refl)
read_pair (c ∷ key) value lines form h =
    ap
      (λ (x : Bytes × Option Bytes).
        read_form lines (assign x.0 (value_of (c ∷ key ++ (61 ∷ value)) x.1) form))
      (split_at-append is_equals (c ∷ key) 61 value h refl)

print_pair-NoneOf :
    (key value : Bytes)
    → NoneOf is_ampersand key
    → NoneOf is_ampersand value
    → NoneOf is_ampersand (print_pair (key, value))
unfolding all_false
print_pair-NoneOf key value h h' = NoneOf-append is_ampersand key (61 ∷ value) h h'

getlines-print_pair :
    (key value : Bytes)
    → NoneOf is_ampersand (print_pair (key, value))
    → getlines 38 (print_pair (key, value)) ≡ print_pair (key, value) ∷ []
getlines-print_pair [] value h = getlines-none 38 61 value h
getlines-print_pair (c ∷ key) value h = getlines-none 38 c (key ++ (61 ∷ value)) h

read_form-print_pairs :
    (p : Pair) (rest form : List Pair)
    → IsForm (p ∷ rest)
    → read_form (getlines 38 (print_pairs p rest)) form ≡ assign_pairs (p ∷ rest) form
unfolding read_form
read_form-print_pairs (key, value) [] form (hk, he, hv, _) =
    ap (λ lines. read_form lines form)
      (getlines-print_pair key value (print_pair-NoneOf key value hk hv))
    ∙ read_pair key value [] form he
read_form-print_pairs (key, value) (q ∷ rest) form (hk, he, hv, h) =
    ap (λ lines. read_form lines form)
      (getlines-append 38 (print_pair (key, value)) (print_pairs q rest)
        (print_pair-NoneOf key value hk hv))
    ∙ read_pair key value (getlines 38 (print_pairs q rest)) form he
    ∙ read_form-print_pairs q rest (assign key value form) h

-- A form is read back as it was written, the last value of a key kept, if the request has the content
-- type of forms. Keys have no `&` and no `=`, values no `&`.
pub parse_body-print_pairs :
    (headers : List (Bytes × List Bytes)) (more : List Bytes) (p : Pair) (rest : List Pair)
    → lookup (codes "Content-Type") headers
      ≡ some (codes "application/x-www-form-urlencoded" ∷ more)
    → IsForm (p ∷ rest)
    → parse_body headers (print_pairs p rest)
      ≡ some (true, record clear_body { form = assign_pairs (p ∷ rest) [] })
unfolding parse_body parse_typed parse_form first_value find find_at is_prefix
parse_body-print_pairs headers more p rest typed h =
    ap (λ values. parse_typed (first_value values) (print_pairs p rest)) typed
    ∙ ap (λ f. some (true, record clear_body { form = f })) (read_form-print_pairs p rest [] h)
