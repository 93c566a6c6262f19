-- ===== src/Http/Status.antt =====
-- The statuses of a response: http_Status and http_status_map in http/http_conn.h.
use conv_event.Base.{ℕ, List, [], ◌∷◌, Option, none, some, Bytes, codes, ◌==◌, if◌then◌else◌}

pub data HttpStatus : Type 0 where
  continue switching_protocols processing ok created accepted : HttpStatus
  non_authoritative_information no_content reset_content partial_content multi_status : HttpStatus
  multiple_choice moved_permanently move_temporarily see_other not_modified use_proxy : HttpStatus
  switch_proxy temporary_redirect bad_request unauthorized payment_required forbidden : HttpStatus
  not_found method_not_allowed not_acceptable proxy_authentication_required : HttpStatus
  request_timeout conflict gone length_required precondition_failed : HttpStatus
  request_entity_too_large request_uri_too_long unsupported_media_type : HttpStatus
  requested_range_not_satisfiable expectation_failed i_am_a_teapot misdirected_request : HttpStatus
  unprocessable_entity locked failed_dependency too_early upgrade_required retry_with : HttpStatus
  unavailable_for_legal_reasons : HttpStatus

-- `(int32_t)status`
unfoldable pub value : HttpStatus → ℕ
value continue = 100
value switching_protocols = 101
value processing = 102
value ok = 200
value created = 201
value accepted = 202
value non_authoritative_information = 203
value no_content = 204
value reset_content = 205
value partial_content = 206
value multi_status = 207
value multiple_choice = 300
value moved_permanently = 301
value move_temporarily = 302
value see_other = 303
value not_modified = 304
value use_proxy = 305
value switch_proxy = 306
value temporary_redirect = 307
value bad_request = 400
value unauthorized = 401
value payment_required = 402
value forbidden = 403
value not_found = 404
value method_not_allowed = 405
value not_acceptable = 406
value proxy_authentication_required = 407
value request_timeout = 408
value conflict = 409
value gone = 410
value length_required = 411
value precondition_failed = 412
value request_entity_too_large = 413
value request_uri_too_long = 414
value unsupported_media_type = 415
value requested_range_not_satisfiable = 416
value expectation_failed = 417
value i_am_a_teapot = 418
value misdirected_request = 421
value unprocessable_entity = 422
value locked = 423
value failed_dependency = 422
value too_early = 425
value upgrade_required = 426
value retry_with = 449
value unavailable_for_legal_reasons = 451

unfoldable pub http_status_map : List (HttpStatus × Bytes)
http_status_map =
    (continue, codes "Continue")
    ∷ (switching_protocols, codes "Switching Protocols")
    ∷ (processing, codes "Processing")
    ∷ (ok, codes "OK")
    ∷ (created, codes "Created")
    ∷ (accepted, codes "Accepted")
    ∷ (non_authoritative_information, codes "Non-Authoritative Information")
    ∷ (no_content, codes "No Content")
    ∷ (reset_content, codes "Reset Content")
    ∷ (partial_content, codes "Partial Content")
    ∷ (multi_status, codes "Multi-Status")
    ∷ (multiple_choice, codes "Multiple Choices")
    ∷ (moved_permanently, codes "Moved Permanently")
    ∷ (move_temporarily, codes "Moved Temporarily")
    ∷ (see_other, codes "See Other")
    ∷ (not_modified, codes "Not Modified")
    ∷ (use_proxy, codes "Use Proxy")
    ∷ (switch_proxy, codes "Switch Proxy")
    ∷ (temporary_redirect, codes "Temporary Redirect")
    ∷ (bad_request, codes "Bad Request")
    ∷ (unauthorized, codes "Unauthorized")
    ∷ (payment_required, codes "Payment Required")
    ∷ (forbidden, codes "Forbidden")
    ∷ (not_found, codes "Not Found")
    ∷ (method_not_allowed, codes "Method Not Allowed")
    ∷ (not_acceptable, codes "Not Acceptable")
    ∷ (proxy_authentication_required, codes "Proxy Authentication Required")
    ∷ (request_timeout, codes "Request Timeout")
    ∷ (conflict, codes "Conflict")
    ∷ (gone, codes "Gone")
    ∷ (length_required, codes "Length Required")
    ∷ (precondition_failed, codes "Precondition Failed")
    ∷ (request_entity_too_large, codes "Request Entity Too Large")
    ∷ (request_uri_too_long, codes "Request-URI Too Long")
    ∷ (unsupported_media_type, codes "Unsupported Media Type")
    ∷ (requested_range_not_satisfiable, codes "Requested Range Not Satisfiable")
    ∷ (expectation_failed, codes "Expectation Failed")
    ∷ (i_am_a_teapot, codes "I'm a teapot")
    ∷ (misdirected_request, codes "Misdirected Request")
    ∷ (unprocessable_entity, codes "Unprocessable Entity")
    ∷ (locked, codes "Locked")
    ∷ (failed_dependency, codes "Failed Dependency")
    ∷ (too_early, codes "Too Early")
    ∷ (upgrade_required, codes "Upgrade Required")
    ∷ (retry_with, codes "Retry With")
    ∷ (unavailable_for_legal_reasons, codes "Unavailable For Legal Reasons")
    ∷ []

-- `http_status_map.at(status)`, whose keys are compared by their values. The first of two equal keys
-- stays.
unfoldable pub at_status : HttpStatus → List (HttpStatus × Bytes) → Option Bytes
at_status s [] = none
at_status s ((k, text) ∷ t) = if value k == value s then some text else at_status s t

unfoldable pub reason : HttpStatus → Option Bytes
unfolding at_status
reason s = at_status s http_status_map
