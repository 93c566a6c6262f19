-- ===== src/Http/Reply/Lines.antt =====
-- The lines of a response of http/http_conn.h, as they stand in RFC 9112.
use conv_event.Base.{
  ◌≡◌, refl, sym, ap, ◌∙◌, inl, inr, Bool-cases, true, false, List, [], ◌∷◌, ◌++◌, append_assoc,
  some, Bytes, codes, lookup, text_eq, text_eq→eq, arith,
}
use conv_event.Http.Response.{ResponseHeader, to_string, header_lines, decimal, reason_text, crlf}
use conv_event.Http.Status.{HttpStatus, value}
use conv_event.Http.Words.{HttpVersion, http_version_map}

abbrev pub status_line : HttpVersion → HttpStatus → Bytes
status_line v s = http_version_map v ++ (32 ∷ decimal (value s) ++ (32 ∷ reason_text s ++ crlf))

abbrev pub page_body : HttpStatus → Bytes
page_body s = codes "<h1> " ++ decimal (value s) ++ (32 ∷ reason_text s ++ codes "</h1>")

abbrev pub header_line : Bytes → Bytes → Bytes
header_line name value = name ++ (58 ∷ value ++ crlf)

abbrev pub header_block : List (Bytes × Bytes) → Bytes
header_block [] = []
header_block ((name, value) ∷ headers) = header_line name value ++ header_block headers

-- The text contains the line.
abbrev pub Among : Bytes → Bytes → Type 0
Among line text = (before : Bytes) × (after : Bytes) × (text ≡ before ++ (line ++ after))

header_line-append :
    (name value rest : Bytes)
    → header_line name value ++ rest ≡ name ++ (58 ∷ value ++ (13 ∷ 10 ∷ rest))
header_line-append name value rest =
    append_assoc name (58 ∷ value ++ crlf) rest
    ∙ ap (λ text. name ++ (58 ∷ text)) (append_assoc value crlf rest)

header_lines-block : (headers : List (Bytes × Bytes)) → header_lines headers ≡ header_block headers
unfolding header_lines
header_lines-block [] = refl
header_lines-block ((name, value) ∷ headers) =
    ap (λ rest. name ++ (58 ∷ value ++ (13 ∷ 10 ∷ rest))) (header_lines-block headers)
    ∙ sym (header_line-append name value (header_block headers))

status_line-append :
    (v : HttpVersion) (s : HttpStatus) (rest : Bytes)
    → status_line v s ++ rest
      ≡ http_version_map v ++ (32 ∷ decimal (value s) ++ (32 ∷ reason_text s ++ (13 ∷ 10 ∷ rest)))
status_line-append v s rest =
    append_assoc (http_version_map v) _ rest
    ∙ ap (λ text. http_version_map v ++ (32 ∷ text)) (append_assoc (decimal (value s)) _ rest)
    ∙ ap (λ text. http_version_map v ++ (32 ∷ decimal (value s) ++ (32 ∷ text)))
        (append_assoc (reason_text s) crlf rest)

pub to_string-text :
    (h : ResponseHeader)
    → to_string h ≡ status_line h.version h.status ++ (header_block h.response_headers ++ crlf)
unfolding to_string
to_string-text h =
    ap
      (λ block.
        http_version_map h.version
        ++ (32 ∷ decimal (value h.status)
            ++ (32 ∷ reason_text h.status ++ (13 ∷ 10 ∷ block ++ crlf))))
      (header_lines-block h.response_headers)
    ∙ sym (status_line-append h.version h.status (header_block h.response_headers ++ crlf))

-- A header that is set has its line.
pub header_block-Among :
    (name value : Bytes) (headers : List (Bytes × Bytes))
    → lookup name headers ≡ some value
    → Among (header_line name value) (header_block headers)
unfolding lookup
header_block-Among name value [] h = cc
header_block-Among name value ((l, v) ∷ headers) h = elim (Bool-cases (text_eq name l)) [
  | inl e ↦ ([], header_block headers, first e)
  | inr e ↦ later (header_block-Among name value headers (rest e))
]
  where
    first :
        text_eq name l ≡ true
        → header_block ((l, v) ∷ headers) ≡ header_line name value ++ header_block headers
    first e = ground (arith, text_eq→eq name l)

    rest : text_eq name l ≡ false → lookup name headers ≡ some value
    rest e = ground (arith, h)

    later :
        Among (header_line name value) (header_block headers)
        → Among (header_line name value) (header_block ((l, v) ∷ headers))
    later (before, after, e) = (
      header_line l v ++ before,
      after,
      ap (λ text. header_line l v ++ text) e
          ∙ sym (append_assoc (header_line l v) before (header_line name value ++ after)),
    )
