-- ===== src/Http/Intake/Examples.antt =====
-- The theorems on `process_in` of http/http_conn.h at concrete inputs.
use conv_event.Base.{
  ◌≡◌, refl, true, false, [], ◌∷◌, none, Bytes, codes, arith, length, assign, emplace, text_eq,
  lookup, all_false,
}
use conv_event.Conn.State
use conv_event.Conn.State.{new_conn, epollout}
use conv_event.Http.Body.{clear_body}
use conv_event.Http.ContentLength.{strtoll, signed_number, read_digits}
use conv_event.Http.HeaderLines.{trim}
use conv_event.Http.Intake.{Intake, process_in}
use conv_event.Http.Intake.Requests.{until_again, at_again, process_in_parameters}
use conv_event.Http.Intake.Forms.{process_in_form}
use conv_event.Http.Intake.Outcomes.{Settles, process_in-Settles}
use conv_event.Http.Response.{HttpConn, World}
use conv_event.Http.Status.{ok}
use conv_event.Http.Words.{get, post, http_1_1, http_method_map, http_version_map}
use conv_event.Socket.ReceiveErrors.{chunks}
use conv_event.Socket.State.{fd, Errno, again, RecvAnswer}

abbrev fresh : HttpConn
fresh = record {
  io = record {
    read_cursor = 0;
    write_cursor = 0;
    write_total_bytes = 0;
    read_total_bytes = 0;
    socket_fd = fd 5;
    already = true;
  };
  conn = new_conn;
  req_header = record {
    method = get;
    url = [];
    version = http_1_1;
    parameters = [];
    request_headers = [];
  };
  req_body = clear_body;
  res_header = record { version = http_1_1; status = ok; response_headers = []; header_text = [] };
  res_body = record {
    file_name = [];
    body_text = [];
    file_fd = none;
    file_stat = record { st_size = 0; others_read = false; is_directory = false };
  };
}

abbrev calm : World
calm = record {
  net = record { wire = []; errno = Errno.clear; open_files = 0 };
  answers = [];
  shared = record { to_close = record { items = [] }; calls = [] };
  types = [];
}

abbrev waits : World
waits = record (at_again calm) { shared = State.next new_conn epollout calm.shared }

process_in_parameters_example :
    process_in 1
      (chunks (codes "GET /a?k" ∷ codes "=v HTTP/1.1\r\n\r\n" ∷ []) (RecvAnswer.failed again ∷ []))
      fresh
      calm
    ≡ Intake.done true
        (record (until_again fresh 23) {
          req_header = record {
            method = get;
            url = codes "/a";
            version = http_1_1;
            parameters = (codes "k", codes "v") ∷ [];
            request_headers = [];
          };
        })
        waits
        []
unfolding all_false emplace http_method_map http_version_map
process_in_parameters_example =
    process_in_parameters get (codes "/a") (codes "k", codes "v") [] http_1_1 [] []
      (codes "GET /a?k" ∷ codes "=v HTTP/1.1\r\n\r\n" ∷ []) [] fresh calm (cc) refl
      (omega arith, (omega arith, tt)) refl (omega arith) refl refl refl (refl, refl, tt) tt

abbrev form_request : Bytes
form_request =
    codes
      "POST /f HTTP/1.1\r\nContent-Length: 3\r\nContent-Type: application/x-www-form-urlencoded\r\n\r\nk=v"

process_in_form_example :
    process_in 1 (chunks (form_request ∷ []) (RecvAnswer.failed again ∷ [])) fresh calm
    ≡ Intake.done true
        (record (until_again fresh (length form_request)) {
          req_header = record {
            method = post;
            url = codes "/f";
            version = http_1_1;
            parameters = [];
            request_headers =
                (codes "Content-Length", codes "3" ∷ [])
                ∷ (codes "Content-Type", codes "application/x-www-form-urlencoded" ∷ [])
                ∷ [];
          };
          req_body = record clear_body { form = (codes "k", codes "v") ∷ [] };
        })
        waits
        []
unfolding all_false emplace assign lookup text_eq trim http_method_map http_version_map strtoll
    signed_number read_digits
process_in_form_example =
    process_in_form 0 (codes "/f") http_1_1
      ((codes "Content-Length", codes "3")
        ∷ (codes "Content-Type", codes "application/x-www-form-urlencoded")
        ∷ [])
      (codes "k", codes "v") [] (codes "3") [] [] (form_request ∷ []) [] fresh calm refl
      (omega arith, tt) refl (omega arith) refl refl refl
      (
        (refl, refl, refl, refl, refl, refl, refl, refl),
        ((refl, refl, refl, refl, refl, refl, refl, refl), tt),
      )
      refl (omega arith) refl (refl, refl, refl, tt)

process_in-Settles_example : Settles new_conn calm.shared (
    process_in 1 (chunks (codes "GET / HTTP/9\r\n" ∷ []) (RecvAnswer.failed again ∷ [])) fresh calm)
process_in-Settles_example =
    process_in-Settles 1 (chunks (codes "GET / HTTP/9\r\n" ∷ []) (RecvAnswer.failed again ∷ []))
      fresh calm
