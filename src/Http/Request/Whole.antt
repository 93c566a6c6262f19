-- ===== src/Http/Request/Whole.antt =====
-- A whole request's header, as `parse_header` reads it (http/http_conn.h).
use conv_event.Base.{
  ℕ, suc, ◌≡◌, refl, ap, ◌∙◌, Bool, false, List, [], ◌∷◌, ◌++◌, Option, none, some, Bytes, length,
  if◌then◌else◌, NoneOf, split_at, split_at-none, split_at-append,
}
use conv_event.Http.Words.{HttpMethods, HttpVersion}
use conv_event.Http.HeaderLines.{is_space, getlines, Lines, read_lines}
use conv_event.Http.HeaderLines.Fields.{
  Field, AreFields, print_fields, assign_all, read_lines-print_fields,
}
use conv_event.Http.Request.{
  RequestHeader, done, fault, then_headers, with_parameters, with_first_space, clear, with_path,
  read_url, split_crlf, read_request_line, is_question, after_line, read_headers, parse_header,
}
use conv_event.Http.Request.Parameters.{Pair, Plain, print_pairs, emplace_all, query-print_pairs}
use conv_event.Http.Request.Line.{
  is_cr, print_line, split_crlf-append, read_request_line_lem, line_plain,
}

read_headers_lem :
    (text : Bytes) (h : RequestHeader) (s : Lines)
    → read_lines (getlines 10 text) (record { headers = h.request_headers; last_header = [] })
      ≡ some s
    → read_headers (some text) h ≡ done (record h { request_headers = s.headers })
unfolding read_headers
read_headers_lem text h s e =
    ap
      (λ (o : Option Lines). elim o [
        | none ↦ fault
        | some s' ↦ done (record h { request_headers = s'.headers })
      ])
      e

-- `parse_header` once the request line is read.
parse_after_line :
    (fuel : ℕ) (m : HttpMethods) (url : Bytes) (v : HttpVersion) (fields : List Field)
    (h h' : RequestHeader)
    → NoneOf is_space url
    → NoneOf is_cr url
    → read_url fuel url (record h { method = m }) ≡ some h'
    → AreFields fields
    → parse_header fuel (print_line m url v ++ (13 ∷ 10 ∷ print_fields fields)) h
      ≡ done (record h' { version = v; request_headers = assign_all fields h'.request_headers })
unfolding parse_header read_headers after_line
parse_after_line fuel m url v fields h h' hs hc e hf =
    let (s, run, same) =
      read_lines-print_fields fields (record { headers = h'.request_headers; last_header = [] })
        hf in
    let text = print_line m url v ++ (13 ∷ 10 ∷ print_fields fields) in
    ap (λ r. then_headers r (after_line text (split_crlf text)))
      (read_request_line_lem fuel m url v (print_fields fields) h h' hs hc e)
    ∙ ap (λ x. read_headers (after_line text x) (record h' { version = v }))
        (split_crlf-append (print_line m url v) (print_fields fields) (line_plain m url v hc))
    ∙ read_headers_lem (print_fields fields) (record h' { version = v }) s run
    ∙ ap (λ hs'. done (record h' { version = v; request_headers = hs' })) same

read_url_plain :
    (fuel : ℕ) (url : Bytes) (h : RequestHeader)
    → NoneOf is_question url
    → read_url fuel url h ≡ some (record h { url = url })
unfolding read_url with_path
read_url_plain fuel url h e = ap (λ x. with_path fuel url x h) (split_at-none is_question url e)

read_url_pairs :
    (path : Bytes) (p : Pair) (rest : List Pair) (h : RequestHeader)
    → NoneOf is_question path
    → Plain (p ∷ rest)
    → read_url (suc (length rest)) (path ++ (63 ∷ print_pairs p rest)) h
      ≡ some (record h { url = path; parameters = emplace_all (p ∷ rest) h.parameters })
unfolding read_url with_path
read_url_pairs path p rest h e hp =
    let url = path ++ (63 ∷ print_pairs p rest) in
    ap (λ x. with_path (suc (length rest)) url x h)
      (split_at-append is_question path 63 (print_pairs p rest) e refl)
    ∙ ap (with_parameters (record h { url = path })) (query-print_pairs url p rest h.parameters hp)

-- A request without parameters is read as it was written: method, url, version and headers, the
-- last value of a name kept. The url has no space, carriage return or question mark; the headers
-- have names without colon that begin with no blank, and values without comma that are not empty
-- and neither begin nor end with a space, none of them with a line feed.
pub parse_header_plain :
    (fuel : ℕ) (m : HttpMethods) (url : Bytes) (v : HttpVersion) (fields : List Field)
    (h : RequestHeader)
    → NoneOf is_space url
    → NoneOf is_cr url
    → NoneOf is_question url
    → AreFields fields
    → parse_header fuel (print_line m url v ++ (13 ∷ 10 ∷ print_fields fields)) (clear h)
      ≡ done (record {
        method = m;
        url = url;
        version = v;
        parameters = [];
        request_headers = assign_all fields [];
      })
unfolding clear
parse_header_plain fuel m url v fields h hs hc hq hf =
    parse_after_line fuel m url v fields (clear h) _ hs hc (read_url_plain fuel url _ hq) hf

-- A request with parameters is read as it was written, in as many rounds of the loop as there are
-- parameters: method, path, version, parameters (the first value of a key kept) and headers (the
-- last value of a name kept). The url has no space or carriage return, the path no question mark, a
-- key no `&` or `=`, a value no `&`; the headers have names without colon that begin with no blank,
-- and values without comma that are not empty and neither begin nor end with a space, none of them
-- with a line feed.
pub parse_header_parameters :
    (m : HttpMethods) (path : Bytes) (p : Pair) (rest : List Pair) (v : HttpVersion)
    (fields : List Field) (h : RequestHeader)
    → NoneOf is_space (path ++ (63 ∷ print_pairs p rest))
    → NoneOf is_cr (path ++ (63 ∷ print_pairs p rest))
    → NoneOf is_question path
    → Plain (p ∷ rest)
    → AreFields fields
    → parse_header
        (suc (length rest))
        (print_line m (path ++ (63 ∷ print_pairs p rest)) v ++ (13 ∷ 10 ∷ print_fields fields))
        (clear h)
      ≡ done (record {
        method = m;
        url = path;
        version = v;
        parameters = emplace_all (p ∷ rest) [];
        request_headers = assign_all fields [];
      })
unfolding clear
parse_header_parameters m path p rest v fields h hs hc hq hp hf =
    parse_after_line (suc (length rest)) m (path ++ (63 ∷ print_pairs p rest)) v fields (clear h) _
      hs hc (read_url_pairs path p rest _ hq hp) hf

-- A header of one character that is no space is taken for a request: `parse_header` returns true,
-- and keeps the method and the version that the last request left behind.
pub parse_header_short :
    (fuel c : ℕ) (h : RequestHeader)
    → is_space c ≡ false
    → parse_header fuel (c ∷ []) (clear h) ≡ done (clear h)
unfolding parse_header read_request_line with_first_space read_headers clear split_at after_line
    split_crlf read_lines getlines
parse_header_short fuel c h e =
    ap
      (λ (b : Bool).
        then_headers
          (with_first_space fuel (c ∷ []) (if b then ([], some []) else (c ∷ [], none)) (clear h))
          (some []))
      e
