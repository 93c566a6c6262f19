-- ===== src/Http/HeaderLines/Fields.antt =====
-- Header lines, written as a client writes them, as `parse_header` reads them (http/http_conn.h).
use conv_event.Base.{
  ℕ, ◌≡◌, refl, ap, ◌∙◌, Bool, true, false, List, [], ◌∷◌, ◌++◌, append_assoc, some, arith, Bytes,
  codes, ◌==◌, if◌then◌else◌, all_false, NoneOf, NoneOf-append, split_at-append, text_eq,
  drop_last-append, assign,
}
use conv_event.Http.HeaderLines.{
  is_colon, is_blank, getlines, trim, Lines, set_header, with_colon, read_line, read_lines,
}

abbrev pub is_lf : ℕ → Bool
is_lf c = c == 10

abbrev pub is_comma : ℕ → Bool
is_comma c = c == 44

abbrev pub Field : Type 0
Field = Bytes × Bytes

-- `name: value` and its line end.
abbrev pub print_field : Field → Bytes
print_field (name, value) = name ++ (58 ∷ 32 ∷ value ++ (13 ∷ []))

abbrev pub print_fields : List Field → Bytes
print_fields [] = []
print_fields (f ∷ fields) = print_field f ++ (10 ∷ print_fields fields)

-- A name has a first character and no colon or line feed, and does not begin with a blank; a value has no
-- comma or line feed, has a character, and neither begins nor ends with a space.
abbrev pub IsField : Field → Type 0
IsField (name, value) =
    (is_blank name ≡ false)
    × (text_eq name [] ≡ false)
    × NoneOf is_colon name
    × NoneOf is_lf name
    × (text_eq value [] ≡ false)
    × (trim value ≡ value)
    × NoneOf is_comma value
    × NoneOf is_lf value

abbrev pub AreFields : List Field → Type 0
AreFields [] = Unit
AreFields (f ∷ fields) = IsField f × AreFields fields

abbrev pub assign_all : List Field → List (Bytes × List Bytes) → List (Bytes × List Bytes)
assign_all [] headers = headers
assign_all ((name, value) ∷ fields) headers = assign_all fields (assign name (value ∷ []) headers)

same_either :
    (b : Bool) (name value : Bytes) (s : Lines)
    → (if b
        then record s { headers = assign name (value ∷ []) s.headers }
        else record { headers = assign name (value ∷ []) s.headers; last_header = name }).headers
      ≡ assign name (value ∷ []) s.headers
same_either true name value s = refl
same_either false name value s = refl

pub getlines-append :
    (sep : ℕ) (line rest : Bytes)
    → NoneOf (λ c. c == sep) line
    → getlines sep (line ++ (sep ∷ rest)) ≡ line ∷ getlines sep rest
unfolding getlines all_false
getlines-append sep [] rest h = ground arith
getlines-append sep (c ∷ line) rest h = ground (arith, getlines-append sep line rest)

pub getlines-none :
    (sep c : ℕ) (line : Bytes)
    → NoneOf (λ d. d == sep) (c ∷ line)
    → getlines sep (c ∷ line) ≡ (c ∷ line) ∷ []
unfolding getlines all_false
getlines-none sep c [] h = ground arith
getlines-none sep c (d ∷ line) h = ground (arith, getlines-none sep d line)

trim_space : (value : Bytes) → trim (32 ∷ value) ≡ trim value
unfolding trim
trim_space value = refl

is_blank-append :
    (name rest : Bytes)
    → is_blank name ≡ false
    → text_eq name [] ≡ false
    → is_blank (name ++ rest) ≡ false
unfolding text_eq
is_blank-append [] rest h e = ground arith
is_blank-append (c ∷ name) rest h e = h

set_header_lem :
    (name value : Bytes) (s : Lines)
    → text_eq value [] ≡ false
    → NoneOf is_comma value
    → (set_header name value s).headers ≡ assign name (value ∷ []) s.headers
unfolding set_header text_eq
set_header_lem name [] s e h = ground arith
set_header_lem name (c ∷ value) s e h =
    ap
      (λ vs.
        (if text_eq name (codes "User-Agent")
          then record s { headers = assign name ((c ∷ value) ∷ []) s.headers }
          else record { headers = assign name vs s.headers; last_header = name }).headers)
      (getlines-none 44 c value h)
    ∙ same_either (text_eq name (codes "User-Agent")) name (c ∷ value) s

read_line_lem :
    (name value : Bytes) (s : Lines)
    → IsField (name, value)
    → read_line (print_field (name, value)) s ≡ some (set_header name value s)
unfolding read_line with_colon
read_line_lem name value s (blank, named, colon, _, _, trimmed, _, _) =
    rw
      (
        ← append_assoc name (58 ∷ 32 ∷ value) (13 ∷ []),
        drop_last-append (name ++ (58 ∷ 32 ∷ value)) 13,
        is_blank-append name (58 ∷ 32 ∷ value) blank named,
      )
      (ap (λ x. with_colon x s) (split_at-append is_colon name 58 (32 ∷ value) colon refl)
        ∙ ap (λ v. some (set_header name v s)) (trim_space value ∙ trimmed))

text_eq-append : (xs ys : Bytes) → text_eq xs [] ≡ false → text_eq (xs ++ ys) [] ≡ false
unfolding text_eq
text_eq-append [] ys h = ground arith
text_eq-append (x ∷ xs) ys h = h

read_lines_step :
    (line : Bytes) (lines : List Bytes) (s s' : Lines)
    → text_eq line [] ≡ false
    → read_line line s ≡ some s'
    → read_lines (line ∷ lines) s ≡ read_lines lines s'
unfolding read_lines text_eq
read_lines_step [] lines s s' h e = ground arith
read_lines_step (c ∷ line) lines s s' h e = rw (e, read_lines)

print_field-NoneOf :
    (name value : Bytes) → IsField (name, value) → NoneOf is_lf (print_field (name, value))
unfolding all_false
print_field-NoneOf name value (_, _, _, name_lf, _, _, _, value_lf) =
    NoneOf-append is_lf name (58 ∷ 32 ∷ value ++ (13 ∷ [])) name_lf
      (NoneOf-append is_lf value (13 ∷ []) value_lf refl)

read_fields_step :
    (name value : Bytes) (fields : List Field) (s : Lines)
    → IsField (name, value)
    → read_lines (getlines 10 (print_fields ((name, value) ∷ fields))) s
      ≡ read_lines (getlines 10 (print_fields fields)) (set_header name value s)
read_fields_step name value fields s h =
    ap (λ lines. read_lines lines s)
      (getlines-append 10 (print_field (name, value)) (print_fields fields)
        (print_field-NoneOf name value h))
    ∙ read_lines_step (print_field (name, value)) (getlines 10 (print_fields fields)) s
        (set_header name value s) (text_eq-append name (58 ∷ 32 ∷ value ++ (13 ∷ [])) h.1)
        (read_line_lem name value s h)

-- The headers of a request are read as they were written: each name has its one value, and a name
-- that comes again has its last value.
pub read_lines-print_fields :
    (fields : List Field) (s : Lines)
    → AreFields fields
    → (s' : Lines) × (read_lines (getlines 10 (print_fields fields)) s ≡ some s')
      × (s'.headers ≡ assign_all fields s.headers)
unfolding read_lines getlines
read_lines-print_fields [] s h = (s, refl, refl)
read_lines-print_fields ((name, value) ∷ fields) s (h, hs) =
    let (s', run, same) = read_lines-print_fields fields (set_header name value s) hs in
    (
      s',
      read_fields_step name value fields s h ∙ run,
      same ∙ ap (assign_all fields) (set_header_lem name value s h.4 h.6),
    )
