-- ===== src/Http/Response.antt =====
-- A connection of http/http_conn.h, and the text of its responses. The order in which an unordered_map
-- is gone through is the order of its list.
use conv_event.Base.{
  ℕ, zero, suc, ◌+◌, ◌/◌, ◌%◌, Bool, false, List, [], ◌∷◌, ◌++◌, Option, none, some, Bytes, codes,
  length, ltb, if◌then◌else◌, assign,
}
use conv_event.Conn.State.{Conn, Shared}
use conv_event.Http.Body.{RequestBody}
use conv_event.Http.Request.{RequestHeader}
use conv_event.Http.Status.{HttpStatus, value, reason}
use conv_event.Http.Words.{HttpVersion, http_version_map}
use conv_event.Socket.State.{SocketIo, Net, SendAnswer}

pub record ResponseHeader : Type 0 where
  pub version : HttpVersion
  pub status : HttpStatus
  pub response_headers : List (Bytes × Bytes)
  pub header_text : Bytes

-- What `fstat` tells of a file.
pub record Stat : Type 0 where
  pub st_size : ℕ
  pub others_read : Bool
  pub is_directory : Bool

-- `file_fd` is the content of the open file, and `none` stands for -1.
pub record ResponseBody : Type 0 where
  pub file_name : Bytes
  pub body_text : Bytes
  pub file_fd : Option Bytes
  pub file_stat : Stat

pub record HttpConn : Type 0 where
  pub io : SocketIo
  pub conn : Conn
  pub req_header : RequestHeader
  pub req_body : RequestBody
  pub res_header : ResponseHeader
  pub res_body : ResponseBody

-- What the operations work on besides the connection; `types` is what http_content_type_map holds by now.
pub record World : Type 0 where
  pub net : Net
  pub answers : List SendAnswer
  pub shared : Shared
  pub types : List (Bytes × Bytes)

-- The result of an operation; `none` is an operation that is still in a system call or in its loop.
abbrev pub Reply : Type 0
Reply = Option (Bool × HttpConn × World)

-- `std::to_string`
unfoldable pub digits : ℕ → ℕ → Bytes → Bytes
digits zero n text = text
digits (suc fuel) n text =
    let more = digits fuel (n / 10) ((48 + n % 10) ∷ text) in
    if ltb n 10 then (48 + n) ∷ text else more

unfoldable pub decimal : ℕ → Bytes
unfolding digits
decimal n = digits (suc n) n []

-- `http_status_map.at(status)`, which has every status.
unfoldable pub reason_text : HttpStatus → Bytes
reason_text s = elim (reason s) [ none ↦ [] | some text ↦ text ]

-- "\r\n"
abbrev pub crlf : Bytes
crlf = 13 ∷ 10 ∷ []

unfoldable pub header_lines : List (Bytes × Bytes) → Bytes
header_lines [] = []
header_lines ((name, value) ∷ headers) = name ++ (58 ∷ value ++ (13 ∷ 10 ∷ header_lines headers))

unfoldable pub to_string : ResponseHeader → Bytes
unfolding decimal reason_text header_lines
to_string h =
    http_version_map h.version
    ++ (32 ∷ decimal (value h.status)
        ++ (32 ∷ reason_text h.status ++ (13 ∷ 10 ∷ header_lines h.response_headers ++ crlf)))

-- `response_headers[name] = value`
unfoldable pub set_response_header : Bytes → Bytes → HttpConn → HttpConn
set_response_header name value c = record c {
  res_header = record c.res_header {
    response_headers = assign name value c.res_header.response_headers;
  };
}

unfoldable pub set_status : HttpStatus → HttpConn → HttpConn
set_status s c = record c { res_header = record c.res_header { status = s } }

unfoldable pub build_body_text : HttpConn → HttpConn
unfolding decimal reason_text
build_body_text c = record c {
  res_body = record c.res_body {
    body_text =
        codes "<h1> "
        ++ decimal (value c.res_header.status)
        ++ (32 ∷ reason_text c.res_header.status ++ codes "</h1>");
  };
}

-- A status, its text as the body, and the length of that.
unfoldable pub status_page : HttpStatus → HttpConn → HttpConn
unfolding set_status build_body_text set_response_header
status_page s c =
    let c' = build_body_text (set_status s c) in
    set_response_header (codes "Content-Length") (decimal (length c'.res_body.body_text)) c'

unfoldable pub clear_out : HttpConn → HttpConn
clear_out c = record c {
  res_header = record c.res_header { response_headers = []; header_text = [] };
  res_body = record {
    file_name = [];
    body_text = [];
    file_fd = none;
    file_stat = record { st_size = 0; others_read = false; is_directory = false };
  };
}
