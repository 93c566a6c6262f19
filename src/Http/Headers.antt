-- ===== src/Http/Headers.antt =====
-- The headers: http_Header and its two maps in http/http_conn.h.
use conv_event.Base.{Option, none, some, Bytes, codes}

pub data HttpHeader : Type 0 where
  accept accept_charset accept_encoding accept_language accept_datetime authorization : HttpHeader
  cache_control connection content_length content_md5 content_type cookie date expect : HttpHeader
  forwarded from host if_match if_modified_since if_none_match if_range : HttpHeader
  if_unmodified_since max_forwards origin pragma proxy_authorization range referer te : HttpHeader
  trailer transfer_encoding user_agent upgrade via warning x_requested_with dnt : HttpHeader
  x_forwarded_for x_forwarded_host x_forwarded_proto xatt_device_id x_wap_profile : HttpHeader
  proxy_connection xuidh x_csrf_token x_request_id x_correlation_id save_data : HttpHeader
  accept_patch accept_ranges access_control_allow_credentials : HttpHeader
  access_control_allow_headers access_control_allow_methods access_control_allow_origin : HttpHeader
  access_control_expose_headers access_control_max_age age allow alt_svc : HttpHeader
  cache_control_header clear_site_data connection_header content_disposition : HttpHeader
  content_encoding content_language content_location content_range cookie_header : HttpHeader
  cross_origin_resource_policy dnt_header dpr early_data e_tag expect_ct expires : HttpHeader
  feature_policy forwarded_header from_header host_header if_match_header : HttpHeader
  if_modified_since_header if_none_match_header if_range_header : HttpHeader
  if_unmodified_since_header im last_modified link location origin_header : HttpHeader
  proxy_authenticate public_key_pins public_key_pins_report_only range_header : HttpHeader
  referer_header referrer_policy retry_after server server_timing set_cookie source_map : HttpHeader
  strict_transport_security te_header timing_allow_origin tk trailer_header : HttpHeader
  transfer_encoding_header upgrade_header vary via_header www_authenticate : HttpHeader
  warning_header x_content_duration x_content_security_policy : HttpHeader
  x_content_security_policy_report_only x_content_type_options xdns_prefetch_control : HttpHeader
  x_download_options x_frame_options x_forwarded_proto_header x_frame_options_header : HttpHeader
  x_powered_by x_requested_with_header xua_compatible x_user_ip xxss_protection : HttpHeader

-- The map has no entry for the other headers.
unfoldable pub http_header_map : HttpHeader → Option Bytes
http_header_map accept = some (codes "Accept")
http_header_map accept_charset = some (codes "Accept-Charset")
http_header_map accept_encoding = some (codes "Accept-Encoding")
http_header_map accept_language = some (codes "Accept-Language")
http_header_map accept_datetime = some (codes "Accept-Datetime")
http_header_map authorization = some (codes "Authorization")
http_header_map cache_control = some (codes "Cache-Control")
http_header_map connection = some (codes "Connection")
http_header_map content_length = some (codes "Content-Length")
http_header_map content_md5 = some (codes "Content-MD5")
http_header_map content_type = some (codes "Content-Type")
http_header_map cookie = some (codes "Cookie")
http_header_map date = some (codes "Date")
http_header_map expect = some (codes "Expect")
http_header_map forwarded = some (codes "Forwarded")
http_header_map from = some (codes "From")
http_header_map host = some (codes "Host")
http_header_map if_match = some (codes "If-Match")
http_header_map if_modified_since = some (codes "If-Modified-Since")
http_header_map if_none_match = some (codes "If-None-Match")
http_header_map if_range = some (codes "If-Range")
http_header_map if_unmodified_since = some (codes "If-Unmodified-Since")
http_header_map max_forwards = some (codes "Max-Forwards")
http_header_map origin = some (codes "Origin")
http_header_map pragma = some (codes "Pragma")
http_header_map proxy_authorization = some (codes "Proxy-Authorization")
http_header_map range = some (codes "Range")
http_header_map referer = some (codes "Referer")
http_header_map te = some (codes "TE")
http_header_map trailer = some (codes "Trailer")
http_header_map transfer_encoding = some (codes "Transfer-Encoding")
http_header_map user_agent = some (codes "User-Agent")
http_header_map upgrade = some (codes "Upgrade")
http_header_map via = some (codes "Via")
http_header_map warning = some (codes "Warning")
http_header_map x_requested_with = some (codes "X-Requested-With")
http_header_map dnt = some (codes "DNT")
http_header_map x_forwarded_for = some (codes "X-Forwarded-For")
http_header_map x_forwarded_host = some (codes "X-Forwarded-Host")
http_header_map x_forwarded_proto = some (codes "X-Forwarded-Proto")
http_header_map xatt_device_id = some (codes "X-ATT-DeviceId")
http_header_map x_wap_profile = some (codes "X-Wap-Profile")
http_header_map proxy_connection = some (codes "Proxy-Connection")
http_header_map xuidh = some (codes "X-UIDH")
http_header_map x_csrf_token = some (codes "X-Csrf-Token")
http_header_map x_request_id = some (codes "X-Request-ID")
http_header_map x_correlation_id = some (codes "X-Correlation-ID")
http_header_map save_data = some (codes "Save-Data")
http_header_map accept_patch = some (codes "Accept-Patch")
http_header_map accept_ranges = some (codes "Accept-Ranges")
http_header_map access_control_allow_credentials = some (codes "Access-Control-Allow-Credentials")
http_header_map access_control_allow_headers = some (codes "Access-Control-Allow-Headers")
http_header_map access_control_allow_methods = some (codes "Access-Control-Allow-Methods")
http_header_map access_control_allow_origin = some (codes "Access-Control-Allow-Origin")
http_header_map access_control_expose_headers = some (codes "Access-Control-Expose-Headers")
http_header_map access_control_max_age = some (codes "Access-Control-Max-Age")
http_header_map age = some (codes "Age")
http_header_map allow = some (codes "Allow")
http_header_map content_disposition = some (codes "Content-Disposition")
http_header_map content_encoding = some (codes "Content-Encoding")
http_header_map content_language = some (codes "Content-Language")
http_header_map content_location = some (codes "Content-Location")
http_header_map content_range = some (codes "Content-Range")
http_header_map e_tag = some (codes "ETag")
http_header_map expires = some (codes "Expires")
http_header_map last_modified = some (codes "Last-Modified")
http_header_map link = some (codes "Link")
http_header_map location = some (codes "Location")
http_header_map proxy_authenticate = some (codes "Proxy-Authenticate")
http_header_map retry_after = some (codes "Retry-After")
http_header_map server = some (codes "Server")
http_header_map set_cookie = some (codes "Set-Cookie")
http_header_map strict_transport_security = some (codes "Strict-Transport-Security")
http_header_map vary = some (codes "Vary")
http_header_map www_authenticate = some (codes "WWW-Authenticate")
http_header_map _ = none
