-- ===== src/Http/Request/Line.antt =====
-- The request line, as `parse_header` reads it (http/http_conn.h).
use conv_event.Base.{
  ℕ, suc, ◌+◌, ◌≡◌, refl, ap, subst, ◌∙◌, Bool, true, false, [], ◌∷◌, ◌++◌, append_assoc, some,
  arith, Bytes, length, length-append, drop, drop-append, ltb, lt→ltb, ◌==◌, all_false, NoneOf,
  split_at, split_at-append, text_eq,
}
use conv_event.Http.Words.{HttpMethods, HttpVersion, http_method_map, http_version_map}
use conv_event.Http.HeaderLines.{is_space}
use conv_event.Http.Request.{
  RequestHeader, done, read_url, read_version, split_crlf, version_text, with_target, with_method,
  with_first_space, read_request_line,
}
use conv_event.Http.Tables.{method_found}

abbrev pub is_cr : ℕ → Bool
is_cr c = c == 13

pub split_crlf-append :
    (line rest : Bytes)
    → NoneOf is_cr line
    → split_crlf (line ++ (13 ∷ 10 ∷ rest)) ≡ (line, some rest)
unfolding split_crlf all_false
split_crlf-append [] rest h = refl
split_crlf-append (c ∷ []) rest h = ground arith
split_crlf-append (c ∷ d ∷ line) rest h = ground (arith, split_crlf-append (d ∷ line) rest)

http_method_map-NoneOf :
    (m : HttpMethods) → NoneOf is_space (http_method_map m) × NoneOf is_cr (http_method_map m)
unfolding http_method_map all_false
http_method_map-NoneOf m = ground arith

read_version-map :
    (v : HttpVersion)
    → (read_version (http_version_map v) ≡ some v) × NoneOf is_cr (http_version_map v)
unfolding read_version http_version_map all_false text_eq
read_version-map v = ground arith

NoneOf-append_cons :
    (p : ℕ → Bool) (xs ys : Bytes) (c : ℕ)
    → NoneOf p xs
    → p c ≡ false
    → NoneOf p ys
    → NoneOf p (xs ++ (c ∷ ys))
unfolding all_false
NoneOf-append_cons p [] ys c h e h' = ground arith
NoneOf-append_cons p (x ∷ xs) ys c h e h' = ground (arith, NoneOf-append_cons p xs ys c)

-- `method url version`
abbrev pub print_line : HttpMethods → Bytes → HttpVersion → Bytes
print_line m url v = http_method_map m ++ (32 ∷ url ++ (32 ∷ http_version_map v))

line_length :
    (m : HttpMethods) (url : Bytes) (v : HttpVersion)
    → ltb (length (http_method_map m) + suc (length url)) (length (print_line m url v)) ≡ true
line_length m url v = lt→ltb _ _ (
    omega (
      arith,
      length-append (http_method_map m) (32 ∷ url ++ (32 ∷ http_version_map v)),
      length-append url (32 ∷ http_version_map v),
    ))

version_after :
    (m : HttpMethods) (url : Bytes) (v : HttpVersion)
    → drop (suc (length (http_method_map m) + suc (length url))) (print_line m url v)
      ≡ http_version_map v
version_after m url v =
    let front = http_method_map m ++ (32 ∷ url ++ (32 ∷ [])) in
    subst (λ t. drop (suc (length (http_method_map m) + suc (length url))) t ≡ http_version_map v)
      (append_assoc (http_method_map m) (32 ∷ url ++ (32 ∷ [])) (http_version_map v)
        ∙ ap (λ t. http_method_map m ++ (32 ∷ t)) (append_assoc url (32 ∷ []) (http_version_map v)))
      (drop-append (suc (length (http_method_map m) + suc (length url))) front (http_version_map v)
        (omega (
          arith,
          length-append (http_method_map m) (32 ∷ url ++ (32 ∷ [])),
          length-append url (32 ∷ []),
        )))

version_text-line :
    (m : HttpMethods) (url : Bytes) (v : HttpVersion) (rest after : Bytes)
    → version_text
        (print_line m url v, some rest)
        (length (http_method_map m) + suc (length url))
        after
      ≡ http_version_map v
unfolding version_text
version_text-line m url v rest after = rw (line_length m url v) (version_after m url v)

-- The rest of the text after the method and its space.
after_method :
    (m : HttpMethods) (url : Bytes) (v : HttpVersion) (rest : Bytes)
    → print_line m url v ++ (13 ∷ 10 ∷ rest)
      ≡ http_method_map m ++ (32 ∷ url ++ (32 ∷ http_version_map v ++ (13 ∷ 10 ∷ rest)))
after_method m url v rest =
    append_assoc (http_method_map m) (32 ∷ url ++ (32 ∷ http_version_map v)) (13 ∷ 10 ∷ rest)
    ∙ ap (λ t. http_method_map m ++ (32 ∷ t))
        (append_assoc url (32 ∷ http_version_map v) (13 ∷ 10 ∷ rest))

pub line_plain :
    (m : HttpMethods) (url : Bytes) (v : HttpVersion)
    → NoneOf is_cr url
    → NoneOf is_cr (print_line m url v)
line_plain m url v h =
    NoneOf-append_cons is_cr (http_method_map m) (url ++ (32 ∷ http_version_map v)) 32
      (http_method_map-NoneOf m).1 refl
      (NoneOf-append_cons is_cr url (http_version_map v) 32 h refl (read_version-map v).1)

target_lem :
    (fuel : ℕ) (m : HttpMethods) (url : Bytes) (v : HttpVersion) (rest : Bytes)
    (h h' : RequestHeader)
    → NoneOf is_space url
    → NoneOf is_cr url
    → read_url fuel url h ≡ some h'
    → with_target fuel
        (print_line m url v ++ (13 ∷ 10 ∷ rest))
        (length (http_method_map m))
        (split_at is_space (url ++ (32 ∷ http_version_map v ++ (13 ∷ 10 ∷ rest))))
        h
      ≡ done (record h' { version = v })
unfolding with_target
target_lem fuel m url v rest h h' hs hc e = rw (
  split_at-append is_space url 32 (http_version_map v ++ (13 ∷ 10 ∷ rest)) hs refl,
  split_crlf-append (print_line m url v) rest (line_plain m url v hc),
  version_text-line m url v rest (http_version_map v ++ (13 ∷ 10 ∷ rest)),
  (read_version-map v).0,
  e,
)

pub read_request_line_lem :
    (fuel : ℕ) (m : HttpMethods) (url : Bytes) (v : HttpVersion) (rest : Bytes)
    (h h' : RequestHeader)
    → NoneOf is_space url
    → NoneOf is_cr url
    → read_url fuel url (record h { method = m }) ≡ some h'
    → read_request_line fuel (print_line m url v ++ (13 ∷ 10 ∷ rest)) h
      ≡ done (record h' { version = v })
unfolding read_request_line with_first_space with_method
read_request_line_lem fuel m url v rest h h' hs hc e =
    let text = print_line m url v ++ (13 ∷ 10 ∷ rest) in
    let after = url ++ (32 ∷ http_version_map v ++ (13 ∷ 10 ∷ rest)) in
    ap (λ t. with_first_space fuel text (split_at is_space t) h) (after_method m url v rest)
    ∙ ap (λ x. with_first_space fuel text x h)
        (split_at-append is_space (http_method_map m) 32 after (http_method_map-NoneOf m).0 refl)
    ∙ ap (λ o. with_method fuel text (length (http_method_map m)) after o h) (method_found m)
    ∙ target_lem fuel m url v rest (record h { method = m }) h' hs hc e
