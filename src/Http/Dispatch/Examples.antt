-- ===== src/Http/Dispatch/Examples.antt =====
-- The theorems on the responses of http/http_conn.h at concrete inputs.
use conv_event.Base.{
  ◌≡◌, ◌≢◌, refl, true, false, [], ◌∷◌, ◌++◌, none, some, Bytes, codes, arith, length, ◌≤◌, lookup,
  text_eq, assign,
}
use conv_event.Conn.State.{new_conn}
use conv_event.Http.Body.{clear_body}
use conv_event.Http.ContentTypes.{http_content_type_map}
use conv_event.Http.Dispatch.{
  Site, prepare, process_out, load_file, load_found, load_opened, by_mode,
}
use conv_event.Http.Dispatch.Files.{process_out_file}
use conv_event.Http.Dispatch.Serving.{Fits, process_out_denied}
use conv_event.Http.Filters.{
  empty_node, register_filter, register_below, graft, segments, last_is_slash, set_child,
  match_filter, walk, last_step, find_child,
}
use conv_event.Http.Reply.{send_status}
use conv_event.Http.Reply.Lines.{status_line, page_body, header_line, header_block, Among}
use conv_event.Http.Reply.Pages.{page_headers, Puts, taking_page, send_status_lem}
use conv_event.Http.Reply.Whole.{taking}
use conv_event.Http.Response.{
  crlf, HttpConn, World, clear_out, status_page, set_status, set_response_header, build_body_text,
  to_string, header_lines, reason_text, decimal, digits,
}
use conv_event.Http.Status.{
  ok, forbidden, method_not_allowed, not_found, value, reason, at_status, http_status_map,
}
use conv_event.Http.Words.{HttpMethods, get, post, http_1_1, http_version_map}
use conv_event.Socket.State.{fd, Errno, SendAnswer, buffer_size}

abbrev conn_of : HttpMethods → Bytes → HttpConn
conn_of m path = record {
  io = record {
    read_cursor = 0;
    write_cursor = 0;
    write_total_bytes = 0;
    read_total_bytes = 0;
    socket_fd = fd 5;
    already = true;
  };
  conn = new_conn;
  req_header = record {
    method = m;
    url = path;
    version = http_1_1;
    parameters = [];
    request_headers = [];
  };
  req_body = clear_body;
  res_header = record { version = http_1_1; status = ok; response_headers = []; header_text = [] };
  res_body = record {
    file_name = [];
    body_text = [];
    file_fd = none;
    file_stat = record { st_size = 0; others_read = false; is_directory = false };
  };
}

abbrev start : World
start = record {
  net = record { wire = []; errno = Errno.clear; open_files = 0 };
  answers = [];
  shared = record { to_close = record { items = [] }; calls = [] };
  types = http_content_type_map;
}

-- A secret file of two bytes, which others may not read, and a filter on `/a/b` that lets nothing
-- pass.
abbrev site : Site
site = record {
  base_path = codes "/srv";
  routers = [];
  filters = register_filter (codes "/a/b") 7 empty_node;
  filter_allow = λ f c. false;
  open_file =
      λ name. some (codes "hi", record { st_size = 2; others_read = false; is_directory = false });
}

Fits-denied : Fits (status_page forbidden (prepare (conn_of get (codes "/a/b"))))
unfolding status_page set_status build_body_text set_response_header to_string header_lines
    reason_text decimal digits value reason at_status http_status_map http_version_map clear_out
    assign text_eq
Fits-denied = (omega arith, omega arith)

process_out_denied_example :
    let page = status_page forbidden (prepare (conn_of get (codes "/a/b"))) in
    Puts
      (to_string page.res_header ++ page.res_body.body_text)
      []
      start
      (process_out 1 site (conn_of get (codes "/a/b")) (taking_page page [] start))
unfolding match_filter walk last_step find_child register_filter register_below graft segments
    last_is_slash set_child text_eq
process_out_denied_example =
    process_out_denied 0 site 7 [] (conn_of get (codes "/a/b")) start refl refl refl Fits-denied

Fits-page :
    Fits (status_page method_not_allowed (prepare (conn_of post (codes "/f"))))
    × Fits (status_page not_found (conn_of get (codes "/f")))
unfolding status_page set_status build_body_text set_response_header to_string header_lines
    reason_text decimal digits value reason at_status http_status_map http_version_map clear_out
    assign text_eq
Fits-page = ((omega arith, omega arith), (omega arith, omega arith))

send_status_lem_example :
    let c = conn_of get (codes "/f") in
    let page = status_page not_found c in
    Puts
      ((status_line http_1_1 not_found ++ (header_block (page_headers not_found c) ++ crlf))
        ++ page_body not_found)
      []
      start
      (send_status 1 not_found c (taking_page page [] start))
    × Among
        (header_line (codes "Content-Length") (decimal (length (page_body not_found))))
        (header_block (page_headers not_found c))
    × (lookup (codes "Content-Length") page.res_header.response_headers
        ≡ some (decimal (length page.res_body.body_text)))
    × (page.res_header.status ≡ not_found)
send_status_lem_example =
    send_status_lem 0 not_found [] (conn_of get (codes "/f")) start refl refl (Fits-page.1.0)
      (Fits-page.1.1)

post_is_not_get : post ≢ get
post_is_not_get e = ground arith

header_fits :
    length (to_string (load_file site start.types (prepare (conn_of get (codes "/f")))).res_header)
    ≤ buffer_size
unfolding load_file load_found load_opened by_mode status_page set_status build_body_text
    set_response_header to_string header_lines reason_text decimal digits value reason at_status
    http_status_map http_version_map clear_out assign text_eq
header_fits = omega arith

process_out_file_example :
    let page = load_file site start.types (prepare (conn_of get (codes "/f"))) in
    let header = to_string page.res_header in
    Puts
      (header ++ codes "hi")
      []
      start
      (process_out 1 site (conn_of get (codes "/f")) (taking header (SendAnswer.sent 2 ∷ []) start))
    × (false ≡ false → page.res_header.status ≡ forbidden)
unfolding match_filter walk last_step find_child register_filter register_below graft segments
    last_is_slash set_child text_eq lookup
process_out_file_example =
    process_out_file 0 site (codes "hi")
      (record { st_size = 2; others_read = false; is_directory = false }) []
      (conn_of get (codes "/f")) start refl refl refl refl refl (omega arith) (omega arith) refl
      header_fits
