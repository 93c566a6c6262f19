-- ===== src/Http/Dispatch/Serving.antt =====
-- What `process_out` of http/http_conn.h answers to a filter that refuses, to a method without a router
-- and to a url that names a file. Each system call takes what it is handed.
use conv_event.Base.{
  ℕ, suc, ◌≡◌, ◌≢◌, refl, ap, ◌∙◌, ◌≤◌, Bool, true, false, List, ◌++◌, none, some, Bytes, length,
  if◌then◌else◌, lookup,
}
use conv_event.Http.Dispatch.{
  Site, without_router, with_router, return_true, process_method, filtered, prepare, process_out,
}
use conv_event.Http.Filters.{match_filter}
use conv_event.Http.Reply.{send_status, method_not_allow}
use conv_event.Http.Reply.Pages.{Puts, taking_page, send_page-Puts, page-pos, send_status-Puts}
use conv_event.Http.Response.{
  HttpConn, World, Reply, to_string, status_page, set_status, set_response_header, build_body_text,
  clear_out,
}
use conv_event.Http.Status.{forbidden, method_not_allowed}
use conv_event.Http.Words.{
  HttpMethods, get, post, put, patch, delete, trace, head, options, connect,
}
use conv_event.Socket.State.{SendAnswer, buffer_size}

-- A page fits the write buffer.
abbrev pub Fits : HttpConn → Type 0
Fits c =
    (length c.res_body.body_text ≤ buffer_size) × (length (to_string c.res_header) ≤ buffer_size)

pub Puts-same :
    (text : Bytes) (rest : List SendAnswer) (w : World) (r r' : Reply)
    → r ≡ r'
    → Puts text rest w r'
    → Puts text rest w r
Puts-same text rest w r r' e (c', w', run, wire, left) = (c', w', e ∙ run, wire, left)

Puts-return_true :
    (text : Bytes) (rest : List SendAnswer) (w : World) (r : Reply)
    → Puts text rest w r
    → Puts text rest w (return_true r)
Puts-return_true text rest w r (c', w', run, wire, left) = (c', w', ap return_true run, wire, left)

without_router_other :
    (fuel : ℕ) (site : Site) (m : HttpMethods) (c : HttpConn) (w : World)
    → m ≢ get
    → without_router fuel site m c w ≡ return_true (method_not_allow fuel c w)
unfolding without_router
without_router_other fuel site get c w ne = absurd (ne refl)
without_router_other fuel site post c w ne = refl
without_router_other fuel site put c w ne = refl
without_router_other fuel site patch c w ne = refl
without_router_other fuel site delete c w ne = refl
without_router_other fuel site trace c w ne = refl
without_router_other fuel site head c w ne = refl
without_router_other fuel site options c w ne = refl
without_router_other fuel site connect c w ne = refl

-- Without a filter and without a router, `process_out` does what its method does without a router.
pub process_out_free :
    (fuel : ℕ) (site : Site) (c : HttpConn) (w : World)
    → match_filter c.req_header.url site.filters ≡ none
    → lookup c.req_header.url site.routers ≡ none
    → process_out fuel site c w ≡ without_router fuel site c.req_header.method (prepare c) w
unfolding process_out filtered process_method with_router clear_out
process_out_free fuel site c w free missing =
    ap (λ m. filtered fuel site m (prepare c) w) free
    ∙ ap (λ r. with_router fuel site c.req_header.method r (prepare c) w) missing

method_not_allow-Puts :
    (fuel : ℕ) (rest : List SendAnswer) (c : HttpConn) (w : World)
    → c.res_body.file_fd ≡ none
    → c.io.already ≡ true
    → Fits (status_page method_not_allowed c)
    → Puts
        (to_string (status_page method_not_allowed c).res_header
          ++ (status_page method_not_allowed c).res_body.body_text)
        rest
        w
        (method_not_allow (suc fuel) c (taking_page (status_page method_not_allowed c) rest w))
unfolding method_not_allow status_page build_body_text set_status set_response_header
method_not_allow-Puts fuel rest c w no_file a fits =
    send_page-Puts fuel rest (status_page method_not_allowed c) w no_file a
      (page-pos method_not_allowed c) fits.0 fits.1

-- A request whose url has a filter that does not let it pass is answered by the page for Forbidden
-- alone: no router is called and no file is sent. No message is on its way, header and body fit the
-- write buffer, and the system calls take each whole.
pub process_out_denied :
    (fuel : ℕ) (site : Site) (f : ℕ) (rest : List SendAnswer) (c : HttpConn) (w : World)
    → match_filter c.req_header.url site.filters ≡ some f
    → site.filter_allow f (prepare c) ≡ false
    → c.io.already ≡ true
    → Fits (status_page forbidden (prepare c))
    → let page = status_page forbidden (prepare c) in
      Puts
        (to_string page.res_header ++ page.res_body.body_text)
        rest
        w
        (process_out (suc fuel) site c (taking_page page rest w))
unfolding process_out filtered clear_out
process_out_denied fuel site f rest c w found denied a fits =
    let page = status_page forbidden (prepare c) in
    let w' = taking_page page rest w in
    Puts-same (to_string page.res_header ++ page.res_body.body_text) rest w
      (process_out (suc fuel) site c w') (send_status (suc fuel) forbidden (prepare c) w')
      (ap (λ m. filtered (suc fuel) site m (prepare c) w') found
        ∙ ap
            (λ (b : Bool).
              if b
              then process_method (suc fuel) site c.req_header.method (prepare c) w'
              else send_status (suc fuel) forbidden (prepare c) w')
            denied)
      (send_status-Puts fuel forbidden rest (prepare c) w refl a fits.0 fits.1)

-- A request whose url has no filter and no router and whose method is not GET is answered by the
-- page for Method Not Allowed. No message is on its way, header and body fit the write buffer, and
-- the system calls take each whole.
pub process_out_not_allowed :
    (fuel : ℕ) (site : Site) (rest : List SendAnswer) (c : HttpConn) (w : World)
    → match_filter c.req_header.url site.filters ≡ none
    → lookup c.req_header.url site.routers ≡ none
    → c.req_header.method ≢ get
    → c.io.already ≡ true
    → Fits (status_page method_not_allowed (prepare c))
    → let page = status_page method_not_allowed (prepare c) in
      Puts
        (to_string page.res_header ++ page.res_body.body_text)
        rest
        w
        (process_out (suc fuel) site c (taking_page page rest w))
unfolding clear_out
process_out_not_allowed fuel site rest c w free missing other a fits =
    let page = status_page method_not_allowed (prepare c) in
    let w' = taking_page page rest w in
    let text = to_string page.res_header ++ page.res_body.body_text in
    Puts-same text rest w (process_out (suc fuel) site c w')
      (return_true (method_not_allow (suc fuel) (prepare c) w'))
      (process_out_free (suc fuel) site c w' free missing
        ∙ without_router_other (suc fuel) site c.req_header.method (prepare c) w' other)
      (Puts-return_true text rest w (method_not_allow (suc fuel) (prepare c) w')
        (method_not_allow-Puts fuel rest (prepare c) w refl a fits))
