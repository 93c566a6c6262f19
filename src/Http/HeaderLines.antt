-- ===== src/Http/HeaderLines.antt =====
-- The loop of `parse_header` over the lines of the headers (http/http_conn.h).
pub mod Fields
use conv_event.Base.{
  ℕ, Bool, true, false, ◌||◌, List, [], ◌∷◌, ◌++◌, Option, none, some, Bytes, codes, ◌==◌,
  if◌then◌else◌, text_eq, split_at, drop_last, lookup, assign,
}

abbrev pub is_space : ℕ → Bool
is_space c = c == 32

abbrev pub is_colon : ℕ → Bool
is_colon c = c == 58

abbrev put_front : ℕ → List Bytes → List Bytes
put_front c [] = (c ∷ []) ∷ []
put_front c (line ∷ lines) = (c ∷ line) ∷ lines

-- What repeated calls of `getline` read; a text that ends with the separator has no empty line after
-- it.
unfoldable pub getlines : ℕ → Bytes → List Bytes
getlines sep [] = []
getlines sep (c ∷ text) =
    if c == sep then [] ∷ getlines sep text else put_front c (getlines sep text)

abbrev trim_start : Bytes → Bytes
trim_start [] = []
trim_start (c ∷ text) = if is_space c then trim_start text else c ∷ text

abbrev keep_end : ℕ → Bytes → Bytes
keep_end c [] = if is_space c then [] else c ∷ []
keep_end c (d ∷ text) = c ∷ d ∷ text

abbrev trim_end : Bytes → Bytes
trim_end [] = []
trim_end (c ∷ text) = keep_end c (trim_end text)

unfoldable pub trim : Bytes → Bytes
trim text = trim_end (trim_start text)

abbrev pub is_blank : Bytes → Bool
is_blank [] = false
is_blank (c ∷ line) = (c == 32) || (c == 9)

-- `.back() += line`. An empty vector has no last element.
abbrev append_back : List Bytes → Bytes → Option (List Bytes)
append_back [] line = none
append_back (v ∷ []) line = some ((v ++ line) ∷ [])
append_back (v ∷ w ∷ vs) line = elim (append_back (w ∷ vs) line) [
  | none ↦ none
  | some ws ↦ some (v ∷ ws)
]

-- The headers read so far, and `last_header`.
pub record Lines : Type 0 where
  pub headers : List (Bytes × List Bytes)
  pub last_header : Bytes

abbrev continued : Bytes → List Bytes → Bytes → Lines → Option Lines
continued name values line s = elim (append_back values line) [
  | none ↦ none
  | some values' ↦ some (record s { headers = assign name values' s.headers })
]

unfoldable pub continue_line : Bytes → Lines → Option Lines
continue_line line s = elim s.last_header [
  | [] ↦ some s
  | c ∷ name ↦ elim (lookup (c ∷ name) s.headers) [
    | none ↦ none
    | some values ↦ continued (c ∷ name) values line s
  ]
]

-- The values are what commas separate, but for one header.
unfoldable pub set_header : Bytes → Bytes → Lines → Lines
unfolding getlines
set_header name value s =
    if text_eq name (codes "User-Agent")
    then record s { headers = assign name (value ∷ []) s.headers }
    else record { headers = assign name (getlines 44 value) s.headers; last_header = name }

unfoldable pub with_colon : Bytes × Option Bytes → Lines → Option Lines
unfolding set_header trim
with_colon (name, none) s = some s
with_colon (name, some value) s = some (set_header name (trim value) s)

-- One line without its line feed; its last character, which should be "\r", is erased.
unfoldable pub read_line : Bytes → Lines → Option Lines
unfolding continue_line with_colon
read_line line s =
    let line' = drop_last line in
    if is_blank line' then continue_line line' s else with_colon (split_at is_colon line') s

-- `while(getline(ss,line))`, up to an empty line.
unfoldable pub read_lines : List Bytes → Lines → Option Lines
unfolding read_line
read_lines [] s = some s
read_lines ([] ∷ lines) s = some s
read_lines ((c ∷ line) ∷ lines) s = elim (read_line (c ∷ line) s) [
  | none ↦ none
  | some s' ↦ read_lines lines s'
]
