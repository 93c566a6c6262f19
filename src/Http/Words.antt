-- ===== src/Http/Words.antt =====
-- The methods and versions of a request: http_Methods, http_Version and their maps in
-- http/http_conn.h.
use conv_event.Base.{List, [], ◌∷◌, Bytes, codes}

pub data HttpMethods : Type 0 where
  get post put patch delete trace head options connect : HttpMethods

unfoldable pub http_method_map : HttpMethods → Bytes
http_method_map get = codes "GET"
http_method_map post = codes "POST"
http_method_map put = codes "PUT"
http_method_map patch = codes "PATCH"
http_method_map delete = codes "DELETE"
http_method_map trace = codes "TRACE"
http_method_map head = codes "HEAD"
http_method_map options = codes "OPTIONS"
http_method_map connect = codes "CONNECT"

unfoldable pub http_method_map_string_to_method : List (Bytes × HttpMethods)
http_method_map_string_to_method =
    (codes "GET", get)
    ∷ (codes "POST", post)
    ∷ (codes "PUT", put)
    ∷ (codes "PATCH", patch)
    ∷ (codes "DELETE", delete)
    ∷ (codes "TRACE", trace)
    ∷ (codes "HEAD", head)
    ∷ (codes "OPTIONS", options)
    ∷ (codes "CONNECT", connect)
    ∷ []

pub data HttpVersion : Type 0 where
  http_1_0 http_1_1 http_2_0 : HttpVersion

unfoldable pub http_version_map : HttpVersion → Bytes
http_version_map http_1_0 = codes "HTTP/1.0"
http_version_map http_1_1 = codes "HTTP/1.1"
http_version_map http_2_0 = codes "HTTP/2.0"
