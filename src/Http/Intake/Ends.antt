-- ===== src/Http/Intake/Ends.antt =====
-- Where the head of a request ends, as `process_in` of http/http_conn.h finds it.
use conv_event.Base.{
  sym, some, ◌<◌, npos, add_size, substr, take, drop, take-all, take-append, drop-append, drop-drop,
  ltb, ltb-false, length-append, NoneOf-append, ℕ, suc, ◌+◌, ◌≡◌, refl, ap, ◌∙◌, false, List, [],
  ◌∷◌, ◌++◌, append_assoc, arith, Bytes, length, all_false, NoneOf, is_prefix, find_at, find,
  text_eq,
}
use conv_event.Http.HeaderLines.Fields.{is_lf, Field, IsField, AreFields, print_fields}
use conv_event.Http.Intake.{end_of_head}
use conv_event.Http.Request.Line.{is_cr}

-- What follows does not begin with an empty line.
abbrev Follows : Bytes → Type 0
Follows rest = is_prefix (13 ∷ 10 ∷ []) rest ≡ false

find_at-end : (rest : Bytes) (i : ℕ) → find_at end_of_head (13 ∷ 10 ∷ 13 ∷ 10 ∷ rest) i ≡ i
unfolding find_at is_prefix
find_at-end rest i = refl

find_at-skip_end :
    (rest : Bytes) (i : ℕ)
    → Follows rest
    → find_at end_of_head (13 ∷ 10 ∷ rest) i ≡ find_at end_of_head rest (suc (suc i))
unfolding find_at is_prefix
find_at-skip_end rest i h = ground arith

-- No empty line ends within a line that has no carriage return.
find_at-line_cr :
    (line rest : Bytes) (i j : ℕ)
    → NoneOf is_cr line
    → i + length line ≡ j
    → find_at end_of_head (line ++ (13 ∷ 10 ∷ rest)) i ≡ find_at end_of_head (13 ∷ 10 ∷ rest) j
unfolding find_at is_prefix all_false
find_at-line_cr [] rest i j h e = let e' : i ≡ j = omega arith in rw e' refl
find_at-line_cr (c ∷ line) rest i j h e =
    let again = find_at-line_cr line rest (suc i) j in ground arith

-- Nor within a line that has no line feed.
find_at-line_lf :
    (line rest : Bytes) (i j : ℕ)
    → NoneOf is_lf line
    → i + length line ≡ j
    → find_at end_of_head (line ++ (13 ∷ 10 ∷ rest)) i ≡ find_at end_of_head (13 ∷ 10 ∷ rest) j
unfolding find_at is_prefix all_false
find_at-line_lf [] rest i j h e = let e' : i ≡ j = omega arith in rw e' refl
find_at-line_lf (c ∷ []) rest i j h e = ground arith
find_at-line_lf (c ∷ d ∷ line) rest i j h e =
    let again = find_at-line_lf (d ∷ line) rest (suc i) j in ground arith

abbrev field_line : Field → Bytes
field_line (name, value) = name ++ (58 ∷ 32 ∷ value)

field_line-NoneOf : (f : Field) → IsField f → NoneOf is_lf (field_line f)
unfolding all_false
field_line-NoneOf (name, value) (_, _, _, h, _, _, _, h') =
    NoneOf-append is_lf name (58 ∷ 32 ∷ value) h h'

print_fields-cons :
    (f : Field) (fields : List Field) (rest : Bytes)
    → print_fields (f ∷ fields) ++ rest ≡ field_line f ++ (13 ∷ 10 ∷ print_fields fields ++ rest)
print_fields-cons (name, value) fields rest = simp append_assoc

length-print_fields :
    (f : Field) (fields : List Field)
    → length (print_fields (f ∷ fields))
      ≡ length (field_line f) + suc (suc (length (print_fields fields)))
length-print_fields (name, value) fields = omega (
  arith,
  length-append name (58 ∷ 32 ∷ value),
  length-append (name ++ (58 ∷ 32 ∷ value ++ (13 ∷ []))) (10 ∷ print_fields fields),
  length-append name (58 ∷ 32 ∷ value ++ (13 ∷ [])),
  length-append value (13 ∷ []),
)

print_fields-Follows :
    (f : Field) (fields : List Field) (rest : Bytes)
    → IsField f
    → Follows (print_fields (f ∷ fields) ++ rest)
unfolding is_prefix text_eq all_false
print_fields-Follows ([], value) fields rest (_, h, _, _, _, _, _, _) = cc
print_fields-Follows ((c ∷ []), value) fields rest h = ground arith
print_fields-Follows ((c ∷ d ∷ name), value) fields rest (_, _, _, h, _, _, _, _) = ground arith

-- The first empty line after a request's head is the one that ends it.
fields_end :
    (fields : List Field) (rest : Bytes) (i j : ℕ)
    → AreFields fields
    → i + length (print_fields fields) ≡ j
    → find_at end_of_head (13 ∷ 10 ∷ print_fields fields ++ (13 ∷ 10 ∷ rest)) i ≡ j
fields_end [] rest i j _ e = let e' : i ≡ j = omega arith in find_at-end rest i ∙ e'
fields_end (f ∷ fields) rest i j (h, hs) e =
    let more = print_fields fields ++ (13 ∷ 10 ∷ rest) in
    let k = suc (suc i) + length (field_line f) in
    find_at-skip_end (print_fields (f ∷ fields) ++ (13 ∷ 10 ∷ rest)) i
      (print_fields-Follows f fields (13 ∷ 10 ∷ rest) h)
    ∙ ap (λ x. find_at end_of_head x (suc (suc i))) (print_fields-cons f fields (13 ∷ 10 ∷ rest))
    ∙ find_at-line_lf (field_line f) more (suc (suc i)) k (field_line-NoneOf f h) refl
    ∙ fields_end fields rest k j hs (omega (arith, length-print_fields f fields))

-- A request's head, its line without carriage return: the text up to the empty line ends with `\r\n`.
pub head_end :
    (line rest : Bytes) (fields : List Field)
    → NoneOf is_cr line
    → AreFields fields
    → find end_of_head (line ++ (13 ∷ 10 ∷ print_fields fields ++ (13 ∷ 10 ∷ rest))) 0
      ≡ length line + length (print_fields fields)
unfolding find
head_end line rest fields h hs =
    find_at-line_cr line (print_fields fields ++ (13 ∷ 10 ∷ rest)) 0 (length line) h (omega arith)
    ∙ fields_end fields rest (length line) (length line + length (print_fields fields)) hs refl

-- The line of a request and its headers, as they are sent.
abbrev pub print_head : Bytes → List Field → Bytes
print_head line fields = line ++ (13 ∷ 10 ∷ print_fields fields)

abbrev pub print_request : Bytes → List Field → Bytes → Bytes
print_request line fields body = print_head line fields ++ (13 ∷ 10 ∷ body)

request_end :
    (line body : Bytes) (fields : List Field)
    → NoneOf is_cr line
    → AreFields fields
    → find end_of_head (print_request line fields body) 0
      ≡ length line + length (print_fields fields)
request_end line body fields h hs =
    ap (λ x. find end_of_head x 0)
      (append_assoc line (13 ∷ 10 ∷ print_fields fields) (13 ∷ 10 ∷ body))
    ∙ head_end line body fields h hs

length-print_head :
    (line : Bytes) (fields : List Field)
    → length (print_head line fields) ≡ length line + length (print_fields fields) + 2
length-print_head line fields = omega (arith, length-append line (13 ∷ 10 ∷ print_fields fields))

length-print_request :
    (line body : Bytes) (fields : List Field)
    → length (print_request line fields body)
      ≡ length line + length (print_fields fields) + length body + 4
length-print_request line body fields =
    omega (
      arith,
      length-append (print_head line fields) (13 ∷ 10 ∷ body),
      length-print_head line fields,
    )

pub head_taken :
    (line body : Bytes) (fields : List Field)
    → NoneOf is_cr line
    → AreFields fields
    → length (print_request line fields body) < npos
    → take
        (add_size (find end_of_head (print_request line fields body) 0) 2)
        (print_request line fields body)
      ≡ print_head line fields
head_taken line body fields h hs w = rw (request_end line body fields h hs) (
    take-append _ (print_head line fields) (13 ∷ 10 ∷ body)
      (omega (arith, length-print_head line fields, length-print_request line body fields)))

drop_crlf :
    (n m : ℕ) (head body : Bytes)
    → length head ≡ n
    → n + 2 ≡ m
    → drop m (head ++ (13 ∷ 10 ∷ body)) ≡ body
drop_crlf n m head body e e' =
    sym (drop-drop n 2 m (head ++ (13 ∷ 10 ∷ body)) e')
    ∙ ap (drop 2) (drop-append n head (13 ∷ 10 ∷ body) e)

pub body_taken :
    (line body : Bytes) (fields : List Field)
    → NoneOf is_cr line
    → AreFields fields
    → length (print_request line fields body) < npos
    → substr
        (print_request line fields body)
        (add_size (find end_of_head (print_request line fields body) 0) 4)
        npos
      ≡ some body
unfolding substr
body_taken line body fields h hs w =
    let n = length line + length (print_fields fields) in
    let long : ltb (length (print_request line fields body)) (add_size n 4) ≡ false =
      ltb-false _ _ (omega (arith, length-print_request line body fields)) in
    let rest : drop (add_size n 4) (print_request line fields body) ≡ body =
      drop_crlf (n + 2) _ (print_head line fields) body (length-print_head line fields)
        (omega (arith, length-print_request line body fields)) in
    rw (request_end line body fields h hs, long, rest)
      (ap some (take-all npos body (omega (arith, length-print_request line body fields))))
