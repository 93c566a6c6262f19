-- ===== src/Http/Body.antt =====
-- `parse_body` of http/http_conn.h. Where it throws or reads what is not there, the result is `none`.
pub mod Form
use conv_event.Base.{
  ℕ, Bool, true, false, List, [], ◌∷◌, Option, none, some, Bytes, codes, length, ◌==◌,
  if◌then◌else◌, split_at, drop_last, assign, emplace, lookup, npos, add_size, sub_size, find,
  substr,
}
use conv_event.Http.ContentLength.{first_value}
use conv_event.Http.HeaderLines.{is_colon, is_blank, getlines, trim, Lines, continue_line}
use conv_event.Http.Request.{split_crlf, after_line}

pub record UploadedFile : Type 0 where
  pub file_name : Bytes
  pub content : Bytes

pub record RequestBody : Type 0 where
  pub boundary : Bytes
  pub request_body_headers : List (Bytes × List Bytes)
  pub form : List (Bytes × Bytes)
  pub files : List (Bytes × UploadedFile)

abbrev pub clear_body : RequestBody
clear_body = record { boundary = []; request_body_headers = []; form = []; files = [] }

abbrev pub is_ampersand : ℕ → Bool
is_ampersand c = c == 38

abbrev pub is_equals : ℕ → Bool
is_equals c = c == 61

abbrev pub is_semicolon : ℕ → Bool
is_semicolon c = c == 59

-- `line.substr(equal_pos+1)`, which is the whole line where there is no `=`.
abbrev pub value_of : Bytes → Option Bytes → Bytes
value_of line none = line
value_of line (some value) = value

-- The loop over `key=value`, up to an empty piece.
unfoldable pub read_form : List Bytes → List (Bytes × Bytes) → List (Bytes × Bytes)
read_form [] form = form
read_form ([] ∷ lines) form = form
read_form ((c ∷ line) ∷ lines) form =
    let (key, value) = split_at is_equals (c ∷ line) in
    read_form lines (assign key (value_of (c ∷ line) value) form)

-- The text from `place + skip` to the next quotation mark.
unfoldable pub quoted : Bytes → ℕ → ℕ → Option Bytes
quoted value place skip =
    let start = add_size place skip in
    substr value start (sub_size (sub_size (find (34 ∷ []) value start) place) skip)

-- What stands between the first empty line and the closing boundary, as its length is computed.
unfoldable pub post_data : Bytes → Bytes → Option Bytes
post_data body boundary =
    let start = find (codes "\r\n\r\n") body 0 in
    substr body (add_size start 4)
      (sub_size (sub_size (sub_size (sub_size (length body) (length boundary)) 6) start) 4)

pub record Parts : Type 0 where
  pub lines : Lines
  pub files : List (Bytes × UploadedFile)

abbrev pub file_of :
    Option Bytes
    → Option Bytes
    → Option Bytes
    → List (Bytes × UploadedFile)
    → Option (List (Bytes × UploadedFile))
file_of (some name) (some file_name) (some content) files =
    some (emplace name (record { file_name = file_name; content = content }) files)
file_of none file_name content files = none
file_of (some name) none content files = none
file_of (some name) (some file_name) none files = none

-- `if(name_line != std::string::npos)`
unfoldable pub add_file :
    Bytes → Bytes → Bytes → List (Bytes × UploadedFile) → Option (List (Bytes × UploadedFile))
unfolding quoted post_data
add_file body boundary value files =
    let name_line = find (codes "name=") value 0 in
    let filename_line = find (codes "filename=") value 0 in
    if name_line == npos
    then some files
    else file_of (quoted value name_line 6) (quoted value filename_line 10)
        (post_data body boundary) files

abbrev pub with_files : Bytes → Bytes → Lines → Option (List (Bytes × UploadedFile)) → Option Parts
with_files name value lines none = none
with_files name value lines (some files) =
    let (first, _) = split_at is_semicolon value in
    some (record {
      lines = record { headers = assign name (first ∷ []) lines.headers; last_header = name };
      files = files;
    })

unfoldable pub part_header : Bytes → Bytes → Bytes × Option Bytes → Parts → Option Parts
unfolding add_file trim
part_header body boundary (name, none) s = some s
part_header body boundary (name, some value) s =
    with_files name (trim value) s.lines (add_file body boundary (trim value) s.files)

abbrev pub with_lines : Option Lines → Parts → Option Parts
with_lines none s = none
with_lines (some lines) s = some (record s { lines = lines })

unfoldable pub part_line : Bytes → Bytes → Bytes → Parts → Option Parts
unfolding part_header continue_line
part_line body boundary line s =
    let line' = drop_last line in
    if is_blank line'
    then with_lines (continue_line line' s.lines) s
    else part_header body boundary (split_at is_colon line') s

-- `while(getline(ss,line))`, up to an empty line. The lines of the content are read as headers too.
unfoldable pub part_lines : Bytes → Bytes → List Bytes → Parts → Option Parts
unfolding part_line
part_lines body boundary [] s = some s
part_lines body boundary ([] ∷ lines) s = some s
part_lines body boundary ((c ∷ line) ∷ lines) s = elim (part_line body boundary (c ∷ line) s) [
  | none ↦ none
  | some s' ↦ part_lines body boundary lines s'
]

abbrev pub with_parts : Bytes → Option Parts → Option (Bool × RequestBody)
with_parts boundary none = none
with_parts boundary (some s) = some (
  true,
  record clear_body {
    boundary = boundary;
    request_body_headers = s.lines.headers;
    files = s.files;
  },
)

unfoldable pub multipart_from : Bytes → Bytes → Option Bytes → Option (Bool × RequestBody)
unfolding part_lines getlines
multipart_from body boundary none = none
multipart_from body boundary (some text) = with_parts boundary (
    part_lines body boundary (getlines 10 text)
      (record { lines = record { headers = []; last_header = [] }; files = [] }))

unfoldable pub parse_multipart : Bytes → Option (Bool × RequestBody)
unfolding multipart_from split_crlf after_line
parse_multipart body = multipart_from body (split_crlf body).0 (after_line body (split_crlf body))

unfoldable pub parse_form : Bytes → Option (Bool × RequestBody)
unfolding read_form getlines
parse_form body = some (true, record clear_body { form = read_form (getlines 38 body) [] })

-- By the first value of Content-Type, which is read though it may not be there.
unfoldable pub parse_typed : Option Bytes → Bytes → Option (Bool × RequestBody)
unfolding parse_multipart parse_form
parse_typed none body = none
parse_typed (some type) body =
    if find (codes "multipart/form-data") type 0 == npos
    then if find (codes "application/x-www-form-urlencoded") type 0 == npos
      then some (false, clear_body)
      else parse_form body
    else parse_multipart body

unfoldable pub parse_body : List (Bytes × List Bytes) → Bytes → Option (Bool × RequestBody)
unfolding parse_typed first_value
parse_body headers body = parse_typed (first_value (lookup (codes "Content-Type") headers)) body
