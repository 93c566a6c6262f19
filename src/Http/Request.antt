-- ===== src/Http/Request.antt =====
-- `parse_header` of http/http_conn.h.
pub mod Parameters
pub mod Line
pub mod Whole
use conv_event.Base.{
  ℕ, zero, suc, ◌+◌, Bool, true, false, ◌||◌, List, [], ◌∷◌, ◌++◌, Option, none, some, Bytes, codes,
  length, drop, ltb, ◌==◌, if◌then◌else◌, text_eq, split_at, drop_last, lookup, assign, emplace,
}
use conv_event.Http.HeaderLines.{is_space, getlines, Lines, read_lines}
use conv_event.Http.Words.{
  HttpMethods, HttpVersion, http_1_0, http_1_1, http_2_0, http_method_map_string_to_method,
}

pub record RequestHeader : Type 0 where
  pub method : HttpMethods
  pub url : Bytes
  pub version : HttpVersion
  pub parameters : List (Bytes × Bytes)
  pub request_headers : List (Bytes × List Bytes)

-- `clear` keeps the method and the version.
unfoldable pub clear : RequestHeader → RequestHeader
clear h = record h { url = []; parameters = []; request_headers = [] }

-- `parse_header` returns true or false, or it throws or reads what is not there, or it is still in its
-- loop.
pub data Parsed : Type 0 where
  done rejected : RequestHeader → Parsed
  fault running : Parsed

abbrev pub is_amp : ℕ → Bool
is_amp c = c == 38

abbrev pub is_amp_or_equal : ℕ → Bool
is_amp_or_equal c = (c == 38) || (c == 61)

abbrev pub is_question : ℕ → Bool
is_question c = c == 63

-- `start = end + 1`, which is 0 where nothing was found: the whole url.
abbrev pub from_start : Option Bytes → Bytes → Bytes
from_start none url = url
from_start (some rest) url = rest

-- The loop over the parameters, on fuel; `rest` is the url from `start` on.
unfoldable pub query : ℕ → Bytes → Bytes → List (Bytes × Bytes) → Option (List (Bytes × Bytes))
query zero url rest parameters = none
query (suc fuel) url rest parameters =
    let (key, after_key) = split_at is_amp_or_equal rest in
    let (value, after_value) = split_at is_amp (from_start after_key url) in
    elim after_value [
      | none ↦ some (emplace key value parameters)
      | some rest' ↦ query fuel url rest' (emplace key value parameters)
    ]

abbrev pub with_parameters : RequestHeader → Option (List (Bytes × Bytes)) → Option RequestHeader
with_parameters h none = none
with_parameters h (some parameters) = some (record h { parameters = parameters })

-- The url is cut at its first `?`.
unfoldable pub with_path : ℕ → Bytes → Bytes × Option Bytes → RequestHeader → Option RequestHeader
unfolding query
with_path fuel url (path, none) h = some (record h { url = url })
with_path fuel url (path, some rest) h =
    with_parameters (record h { url = path }) (query fuel url rest h.parameters)

unfoldable pub read_url : ℕ → Bytes → RequestHeader → Option RequestHeader
unfolding with_path
read_url fuel url h = with_path fuel url (split_at is_question url) h

-- The text before the first "\r\n", and the text after it.
unfoldable pub split_crlf : Bytes → Bytes × Option Bytes
split_crlf [] = ([], none)
split_crlf (c ∷ []) = (c ∷ [], none)
split_crlf (c ∷ d ∷ text) =
    let (before, after) = split_crlf (d ∷ text) in
    if c == 13
    then (if d == 10 then ([], some text) else (c ∷ before, after))
    else (c ∷ before, after)

unfoldable pub read_version : Bytes → Option HttpVersion
read_version v =
    if text_eq v (codes "HTTP/1.0")
    then some http_1_0
    else if text_eq v (codes "HTTP/1.1")
    then some http_1_1
    else if text_eq v (codes "HTTP/2.0")
    then some http_2_0
    else none

-- `data.substr(p2+1,request_line_pos-p2-1)`: the length wraps around, and asks for everything after
-- `p2`, where the line ends before `p2` or nowhere.
unfoldable pub version_text : Bytes × Option Bytes → ℕ → Bytes → Bytes
version_text (line, none) p2 after = after
version_text (line, some rest) p2 after = if ltb p2 (length line) then drop (suc p2) line else after

abbrev read_line_end : Option HttpVersion → Option RequestHeader → RequestHeader → Parsed
read_line_end v none h = running
read_line_end none (some h') h = rejected h'
read_line_end (some v) (some h') h = done (record h' { version = v })

-- The url up to the second space `p2`, and the version after it.
unfoldable pub with_target : ℕ → Bytes → ℕ → Bytes × Option Bytes → RequestHeader → Parsed
unfolding read_url read_version version_text split_crlf
with_target fuel text p1 (url, none) h = done h
with_target fuel text p1 (url, some after) h =
    read_line_end (read_version (version_text (split_crlf text) (p1 + suc (length url)) after))
      (read_url fuel url h) h

unfoldable pub with_method : ℕ → Bytes → ℕ → Bytes → Option HttpMethods → RequestHeader → Parsed
unfolding with_target
with_method fuel text p1 after none h = rejected h
with_method fuel text p1 after (some m) h =
    with_target fuel text p1 (split_at is_space after) (record h { method = m })

unfoldable pub with_first_space : ℕ → Bytes → Bytes × Option Bytes → RequestHeader → Parsed
unfolding with_method
with_first_space fuel text (m, none) h = done h
with_first_space fuel text (m, some after) h =
    with_method fuel text (length m) after (lookup m http_method_map_string_to_method) h

-- The request line, between `try` and `catch`.
unfoldable pub read_request_line : ℕ → Bytes → RequestHeader → Parsed
unfolding with_first_space
read_request_line fuel text h = with_first_space fuel text (split_at is_space text) h

-- `data.substr(request_line_pos + 2)`. Where there is no line end, the position wraps around to 1,
-- which a text of no character does not have.
unfoldable pub after_line : Bytes → Bytes × Option Bytes → Option Bytes
after_line text (line, some rest) = some rest
after_line [] (line, none) = none
after_line (c ∷ text) (line, none) = some text

unfoldable pub read_headers : Option Bytes → RequestHeader → Parsed
unfolding read_lines getlines
read_headers none h = fault
read_headers (some text) h =
    elim (read_lines (getlines 10 text)
      (record { headers = h.request_headers; last_header = [] })) [
        | none ↦ fault
        | some s ↦ done (record h { request_headers = s.headers })
      ]

abbrev pub then_headers : Parsed → Option Bytes → Parsed
then_headers (done h) text = read_headers text h
then_headers (rejected h) text = rejected h
then_headers fault text = fault
then_headers running text = running

unfoldable pub parse_header : ℕ → Bytes → RequestHeader → Parsed
unfolding read_request_line read_headers after_line split_crlf
parse_header fuel text h =
    then_headers (read_request_line fuel text h) (after_line text (split_crlf text))
