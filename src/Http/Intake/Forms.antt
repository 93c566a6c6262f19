-- ===== src/Http/Intake/Forms.antt =====
-- `process_in` of http/http_conn.h on a form that is posted.
use conv_event.Base.{
  ℕ, suc, ◌≤◌, ◌<◌, ◌≡◌, refl, ap, ◌∙◌, true, List, [], ◌∷◌, Option, none, some, Bytes, codes,
  length, NoneOf, ltb-false, npos, add_size, find, substr, lookup,
}
use conv_event.Conn.State
use conv_event.Conn.State.{epollout}
use conv_event.Http.Body.{clear_body, RequestBody, parse_body}
use conv_event.Http.Body.Form.{IsForm, assign_pairs, parse_body-print_pairs}
use conv_event.Http.ContentLength.{complete, first_value, read_body, read_post_body, strtoll}
use conv_event.Http.HeaderLines.{is_space}
use conv_event.Http.HeaderLines.Fields.{Field, AreFields, assign_all}
use conv_event.Http.Intake.{
  Intake, end_of_head, process_in, by_method, read_rest, after_body, with_body, await,
}
use conv_event.Http.Intake.Ends.{print_request, body_taken}
use conv_event.Http.Intake.Requests.{until_again, at_again, process_in-head}
use conv_event.Http.Request.{is_question}
use conv_event.Http.Request.Line.{is_cr, print_line, line_plain}
use conv_event.Http.Request.Parameters.{Pair, print_pairs}
use conv_event.Http.Request.Whole.{parse_header_plain}
use conv_event.Http.Response.{HttpConn, World}
use conv_event.Http.Words.{HttpVersion, post}
use conv_event.Socket.ReceiveErrors.{chunks, joined, NonEmpty}
use conv_event.Socket.State.{SocketIo, Net, RecvAnswer, again}

read_body_enough :
    (fuel total : ℕ) (body : Bytes) (answers : List RecvAnswer) (io : SocketIo) (net : Net)
    → total ≤ length body
    → read_body (suc fuel) total body answers io net ≡ complete body io net answers
unfolding read_body
read_body_enough fuel total body answers io net h = rw (ltb-false (length body) total h) refl

-- The body is there as a whole once the head is read.
read_post_body_enough :
    (fuel : ℕ) (headers : List (Bytes × List Bytes)) (value : Bytes) (more : List Bytes)
    (body : Bytes) (answers : List RecvAnswer) (io : SocketIo) (net : Net)
    → lookup (codes "Content-Length") headers ≡ some (value ∷ more)
    → strtoll value ≤ length body
    → read_post_body (suc fuel) headers body answers io net ≡ some (complete body io net answers)
unfolding read_post_body first_value
read_post_body_enough fuel headers value more body answers io net found h =
    ap
      (λ (o : Option (List Bytes)). elim (first_value o) [
        | none ↦ none
        | some text ↦ some (read_body (suc fuel) (strtoll text) body answers io net)
      ])
      found
    ∙ ap some (read_body_enough fuel (strtoll value) body answers io net h)

by_method-post :
    (fuel : ℕ) (text body value : Bytes) (more : List Bytes) (parsed : RequestBody) (c : HttpConn)
    (w : World) (answers : List RecvAnswer)
    → substr text (add_size (find end_of_head text 0) 4) npos ≡ some body
    → lookup (codes "Content-Length") c.req_header.request_headers ≡ some (value ∷ more)
    → strtoll value ≤ length body
    → parse_body c.req_header.request_headers body ≡ some (true, parsed)
    → by_method post (suc fuel) text c w answers
      ≡ await epollout (record c { req_body = parsed }) w answers
unfolding by_method
by_method-post fuel text body value more parsed c w answers taken found enough e =
    ap (λ o. read_rest (suc fuel) o c w answers) taken
    ∙ ap (λ r. after_body r c w)
        (read_post_body_enough fuel c.req_header.request_headers value more body answers c.io w.net
          found enough)
    ∙ ap (λ o. with_body o c w answers) e

-- A form that is posted in any pieces is taken in as it was sent: method, url, version and headers are stored,
-- the fields of the form too (the last value of a key), and the connection waits until it can be written to. The
-- announced length is at most that of the body, and the content type is that of forms. The url has no space,
-- carriage return or question mark, keys have no `&` and no `=`, values no `&`; the headers have names without
-- colon that begin with no blank, and values without comma that are not empty and neither begin nor end with a
-- space, none of them with a line feed. The text is shorter than the greatest `size_t`.
pub process_in_form :
    (fuel : ℕ) (url : Bytes) (v : HttpVersion) (fields : List Field) (p : Pair) (rest : List Pair)
    (value : Bytes) (more more' : List Bytes) (cs : List Bytes) (answers : List RecvAnswer)
    (c : HttpConn) (w : World)
    → c.io.already ≡ true
    → NonEmpty cs
    → joined cs ≡ print_request (print_line post url v) fields (print_pairs p rest)
    → length (print_request (print_line post url v) fields (print_pairs p rest)) < npos
    → NoneOf is_space url
    → NoneOf is_cr url
    → NoneOf is_question url
    → AreFields fields
    → lookup (codes "Content-Length") (assign_all fields []) ≡ some (value ∷ more)
    → strtoll value ≤ length (print_pairs p rest)
    → lookup (codes "Content-Type") (assign_all fields [])
      ≡ some (codes "application/x-www-form-urlencoded" ∷ more')
    → IsForm (p ∷ rest)
    → process_in (suc fuel) (chunks cs (RecvAnswer.failed again ∷ answers)) c w
      ≡ Intake.done true
          (record (until_again c
            (length (print_request (print_line post url v) fields (print_pairs p rest)))) {
              req_header = record {
                method = post;
                url = url;
                version = v;
                parameters = [];
                request_headers = assign_all fields [];
              };
              req_body = record clear_body { form = assign_pairs (p ∷ rest) [] };
            })
          (record (at_again w) { shared = State.next c.conn epollout w.shared })
          answers
unfolding await
process_in_form fuel url v fields p rest value more more' cs answers c w a n e size hs hc hq hf
      found enough typed form =
    let line = print_line post url v in
    process_in-head (suc fuel) line (print_pairs p rest) fields cs answers c w _ a n e size
      (line_plain post url v hc) hf
      (parse_header_plain (suc fuel) post url v fields c.req_header hs hc hq hf)
    ∙ by_method-post fuel _ (print_pairs p rest) value more _ _ _ answers
        (body_taken line (print_pairs p rest) fields (line_plain post url v hc) hf size) found
        enough (parse_body-print_pairs (assign_all fields []) more' p rest typed form)
