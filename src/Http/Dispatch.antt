-- ===== src/Http/Dispatch.antt =====
-- Routers, files and `process_out` of http/http_conn.h. A router's virtual methods, a filter's `allow`
-- and the file system are parameters.
pub mod Serving
pub mod Files
mod Examples
use conv_event.Base.{
  ℕ, ◌+◌, Bool, true, false, not, List, [], ◌∷◌, ◌++◌, Option, none, some, Bytes, codes, length,
  if◌then◌else◌, ◌==◌, lookup, assign, split_at, emplace,
}
use conv_event.Http.Filters.{Node, match_filter}
use conv_event.Http.Reply.{
  ◌>>=◌, finish, send_page, send_response_header, send_response_body, send_status, method_not_allow,
  returning,
}
use conv_event.Http.Response.{
  HttpConn, World, Reply, Stat, clear_out, status_page, set_status, set_response_header, decimal,
}
use conv_event.Http.Status.{HttpStatus, ok, bad_request, forbidden, not_found}
use conv_event.Http.Words.{
  HttpMethods, get, post, put, patch, delete, trace, head, options, connect,
}

-- `allow_list` is `_allow_`; `method_of` stands for the virtual methods `method_get` and its like.
pub record Router : Type 0 where
  pub allow_list : List HttpMethods
  pub method_of : HttpMethods → HttpConn → World → Reply

unfoldable pub method_index : HttpMethods → ℕ
method_index get = 0
method_index post = 1
method_index put = 2
method_index patch = 3
method_index delete = 4
method_index trace = 5
method_index head = 6
method_index options = 7
method_index connect = 8

-- `find(_allow_.begin(),_allow_.end(),m) != _allow_.end()`
unfoldable pub allow : HttpMethods → List HttpMethods → Bool
unfolding method_index
allow m [] = false
allow m (a ∷ rest) = if method_index a == method_index m then true else allow m rest

-- What stands outside the connection: routers, filters, the files under the resource path.
pub record Site : Type 0 where
  pub base_path : Bytes
  pub routers : List (Bytes × Router)
  pub filters : Node
  pub filter_allow : ℕ → HttpConn → Bool
  pub open_file : Bytes → Option (Bytes × Stat)

-- `routers[r->url] = r`
unfoldable pub register_router : Bytes → Router → Site → Site
register_router url r site = record site { routers = assign url r site.routers }

-- The text after the last dot; the whole name where there is none, since `npos + 1` is 0.
unfoldable pub extension : Bytes → Bytes → Bytes
extension found [] = found
extension found (c ∷ name) = extension (if c == 46 then name else found) name

unfoldable pub has_dot : Bytes → Bool
has_dot [] = false
has_dot (c ∷ name) = if c == 46 then true else has_dot name

-- `http_content_type_map["plain"]`, for a name without a dot, leaves an empty entry where there is none.
unfoldable pub with_plain : Bytes → List (Bytes × Bytes) → List (Bytes × Bytes)
unfolding has_dot
with_plain name types = if has_dot name then types else emplace (codes "plain") [] types

unfoldable pub content_type : Bytes → List (Bytes × Bytes) → Bytes
unfolding extension with_plain
content_type name types = elim (lookup (extension name name) (with_plain name types)) [
  | none ↦ codes "application/octet-stream"
  | some type ↦ type
]

-- The status by the file's mode, others' read permission and whether it is a directory.
unfoldable pub by_mode : Bool → Bool → Bytes → List (Bytes × Bytes) → ℕ → HttpConn → HttpConn
unfolding content_type
by_mode false is_directory name types size c = status_page forbidden c
by_mode true true name types size c = status_page bad_request c
by_mode true false name types size c = set_status ok (
    set_response_header (codes "Content-Type") (content_type name types)
      (set_response_header (codes "Content-Length") (decimal size) c))

-- `fstat` succeeded. The file stays open whatever its mode.
unfoldable pub load_opened : Bytes → List (Bytes × Bytes) → Bytes → Stat → HttpConn → HttpConn
unfolding by_mode
load_opened name types content stat c =
    by_mode stat.others_read stat.is_directory name types stat.st_size
      (record c { res_body = record c.res_body { file_fd = some content; file_stat = stat } })

unfoldable pub load_found :
    Bytes → List (Bytes × Bytes) → Option (Bytes × Stat) → HttpConn → HttpConn
unfolding load_opened
load_found name types none c =
    status_page not_found (record c { res_body = record c.res_body { file_fd = none } })
load_found name types (some (content, stat)) c = load_opened name types content stat c

unfoldable pub load_file : Site → List (Bytes × Bytes) → HttpConn → HttpConn
unfolding load_found
load_file site types c =
    let name = site.base_path ++ c.req_header.url in
    load_found name types (site.open_file name)
      (record c { res_body = record c.res_body { file_name = name } })

-- The content types after a file of this mode is loaded.
unfoldable pub noted : Bool → Bool → Bytes → List (Bytes × Bytes) → List (Bytes × Bytes)
unfolding with_plain
noted false is_directory name types = types
noted true true name types = types
noted true false name types = with_plain name types

-- The descriptor that `load_file` opens, and what it leaves in the map.
unfoldable pub opened : Bytes → Option (Bytes × Stat) → World → World
unfolding noted
opened name none w = w
opened name (some (content, stat)) w = record w {
  net = record w.net { open_files = w.net.open_files + 1 };
  types = noted stat.others_read stat.is_directory name w.types;
}

unfoldable pub load_opening : Site → HttpConn → World → World
unfolding opened
load_opening site c w =
    let name = site.base_path ++ c.req_header.url in opened name (site.open_file name) w

-- `write_total_bytes = res_body.file_stat.st_size; write_cursor = 0;`
abbrev pub start_body : HttpConn → HttpConn
start_body c = record c {
  io = record c.io { write_total_bytes = c.res_body.file_stat.st_size; write_cursor = 0 };
}

-- The response to a url that has no router: the file, whether `load_file` succeeded or not.
unfoldable pub send_loaded : ℕ → HttpConn → World → Reply
send_loaded fuel c w =
    send_response_header fuel c w
    >>= (λ c' w'. send_response_body fuel (start_body c') w')
    >>= finish

unfoldable pub render : ℕ → Site → Bytes → HttpConn → World → Reply
unfolding send_loaded load_file load_opening
render fuel site path c w =
    let c' = record c { req_header = record c.req_header { url = path } } in
    send_loaded fuel (load_file site w.types c') (load_opening site c' w)

abbrev pub return_true : Reply → Reply
return_true none = none
return_true (some (b, c, w)) = some (true, c, w)

-- The `catch` of `process_get` and of the other eight.
unfoldable pub without_router : ℕ → Site → HttpMethods → HttpConn → World → Reply
unfolding send_loaded load_file load_opening
without_router fuel site get c w =
    send_loaded fuel (load_file site w.types c) (load_opening site c w)
without_router fuel site m c w = return_true (method_not_allow fuel c w)

-- CONV_CHECK_ROUTER
unfoldable pub with_router : ℕ → Site → HttpMethods → Option Router → HttpConn → World → Reply
unfolding without_router allow
with_router fuel site m none c w = without_router fuel site m c w
with_router fuel site m (some r) c w =
    if allow m r.allow_list then r.method_of m c w else without_router fuel site m c w

-- `process_get` and its like.
unfoldable pub process_method : ℕ → Site → HttpMethods → HttpConn → World → Reply
unfolding with_router
process_method fuel site m c w = with_router fuel site m (lookup c.req_header.url site.routers) c w

-- `forward`, which reads through `routers[url]` of an unknown url as through null: no result.
unfoldable pub forward_to : Option Router → HttpMethods → HttpConn → World → Option Reply
forward_to none m c w = none
forward_to (some r) m c w = some (r.method_of m c w)

unfoldable pub forward : Site → Bytes → HttpMethods → HttpConn → World → Option Reply
unfolding forward_to
forward site url m c w = forward_to (lookup url site.routers) m c w

unfoldable pub filtered : ℕ → Site → Option ℕ → HttpConn → World → Reply
unfolding process_method
filtered fuel site none c w = process_method fuel site c.req_header.method c w
filtered fuel site (some f) c w =
    if site.filter_allow f c
    then process_method fuel site c.req_header.method c w
    else send_status fuel forbidden c w

-- `clear_out(); res_header.version = req_header.version;`
abbrev pub prepare : HttpConn → HttpConn
prepare c =
    let c' = clear_out c in
    record c' { res_header = record c'.res_header { version = c.req_header.version } }

unfoldable pub process_out : ℕ → Site → HttpConn → World → Reply
unfolding filtered
process_out fuel site c w =
    filtered fuel site (match_filter c.req_header.url site.filters) (prepare c) w
