-- ===== src/Http/HeaderNames.antt =====
-- The map from a header's text to the header in http/http_conn.h.
use conv_event.Base.{List, [], ◌∷◌, Bytes, codes}
use conv_event.Http.Headers.{
  HttpHeader, accept, accept_charset, accept_datetime, accept_encoding, accept_language,
  access_control_allow_credentials, access_control_allow_headers, access_control_allow_methods,
  access_control_allow_origin, access_control_expose_headers, access_control_max_age, authorization,
  cache_control, connection, content_disposition, content_encoding, content_language,
  content_length, content_location, content_range, content_type, cookie, date, e_tag, expect,
  expires, forwarded, from, host, if_match, if_modified_since, if_none_match, if_range,
  if_unmodified_since, last_modified, link, location, max_forwards, origin, pragma,
  proxy_authenticate, proxy_authorization, range, referer, retry_after, server, set_cookie,
  strict_transport_security, te, transfer_encoding, upgrade, user_agent, vary, via, warning,
  www_authenticate,
}

unfoldable pub http_header_map_string_to_header : List (Bytes × HttpHeader)
http_header_map_string_to_header =
    (codes "Accept", accept)
    ∷ (codes "Accept-Charset", accept_charset)
    ∷ (codes "Accept-Encoding", accept_encoding)
    ∷ (codes "Accept-Language", accept_language)
    ∷ (codes "Accept-Datetime", accept_datetime)
    ∷ (codes "Authorization", authorization)
    ∷ (codes "Cache-Control", cache_control)
    ∷ (codes "Connection", connection)
    ∷ (codes "Content-Length", content_length)
    ∷ (codes "Content-Type", content_type)
    ∷ (codes "Cookie", cookie)
    ∷ (codes "Date", date)
    ∷ (codes "Expect", expect)
    ∷ (codes "Forwarded", forwarded)
    ∷ (codes "From", from)
    ∷ (codes "Host", host)
    ∷ (codes "If-Match", if_match)
    ∷ (codes "If-Modified-Since", if_modified_since)
    ∷ (codes "If-None-Match", if_none_match)
    ∷ (codes "If-Range", if_range)
    ∷ (codes "If-Unmodified-Since", if_unmodified_since)
    ∷ (codes "Max-Forwards", max_forwards)
    ∷ (codes "Origin", origin)
    ∷ (codes "Pragma", pragma)
    ∷ (codes "Proxy-Authorization", proxy_authorization)
    ∷ (codes "Range", range)
    ∷ (codes "Referer", referer)
    ∷ (codes "TE", te)
    ∷ (codes "User-Agent", user_agent)
    ∷ (codes "Upgrade", upgrade)
    ∷ (codes "Via", via)
    ∷ (codes "Warning", warning)
    ∷ (codes "Access-Control-Allow-Origin", access_control_allow_origin)
    ∷ (codes "Access-Control-Allow-Credentials", access_control_allow_credentials)
    ∷ (codes "Access-Control-Allow-Methods", access_control_allow_methods)
    ∷ (codes "Access-Control-Allow-Headers", access_control_allow_headers)
    ∷ (codes "Access-Control-Max-Age", access_control_max_age)
    ∷ (codes "Access-Control-Expose-Headers", access_control_expose_headers)
    ∷ (codes "Content-Disposition", content_disposition)
    ∷ (codes "Content-Encoding", content_encoding)
    ∷ (codes "Content-Language", content_language)
    ∷ (codes "Content-Location", content_location)
    ∷ (codes "Content-Range", content_range)
    ∷ (codes "ETag", e_tag)
    ∷ (codes "Expires", expires)
    ∷ (codes "Last-Modified", last_modified)
    ∷ (codes "Link", link)
    ∷ (codes "Location", location)
    ∷ (codes "Proxy-Authenticate", proxy_authenticate)
    ∷ (codes "Retry-After", retry_after)
    ∷ (codes "Server", server)
    ∷ (codes "Set-Cookie", set_cookie)
    ∷ (codes "Strict-Transport-Security", strict_transport_security)
    ∷ (codes "Transfer-Encoding", transfer_encoding)
    ∷ (codes "Vary", vary)
    ∷ (codes "WWW-Authenticate", www_authenticate)
    ∷ []
