-- ===== src/Detect/Examples.antt =====
-- The theorems on detect_conn (detect/detect_conn.h) at concrete inputs: a library whose values are texts.
use conv_event.Base.{ℕ, ◌≡◌, refl, true, [], ◌∷◌, none, arith, Bytes, codes, pos}
use conv_event.Conn.State
use conv_event.Conn.State.{new_conn, epollout}
use conv_event.Detect.{Library, DetectConn, done, fault, process_in}
use conv_event.Detect.Protocol.{Asks, message_of, process_in_whole, process_in_early}
use conv_event.Socket.ReceiveErrors.{chunks}
use conv_event.Socket.State.{fd, Errno, again, RecvAnswer, header_bytes, c_str}

abbrev texts : Library Bytes ℕ
texts = record {
  load = λ old text. text;
  has_key = λ j key. true;
  as_int = λ j key. pos 3;
  as_text = λ j key. codes "flower";
  clear = λ j. [];
  assign = λ j label percent. label;
  dump = λ j. j;
  detector = λ type. none;
}

abbrev asking : DetectConn Bytes
asking = record {
  io = record {
    read_cursor = 0;
    write_cursor = 0;
    write_total_bytes = 0;
    read_total_bytes = 0;
    socket_fd = fd 5;
    already = true;
  };
  conn = new_conn;
  message = [];
  net = record { wire = []; errno = Errno.clear; open_files = 0 };
  shared = record { to_close = record { items = [] }; calls = [] };
  file = [];
  writable = true;
}

asking-Asks : Asks texts asking (codes "{}") 3
asking-Asks = record {
  ready = refl;
  short = omega arith;
  typed = refl;
  sized = refl;
  writable = refl;
}

process_in_whole_example :
    process_in texts
      (RecvAnswer.received (header_bytes 3)
        ∷ RecvAnswer.received (c_str (codes "{}"))
        ∷ chunks (codes "a" ∷ codes "bc" ∷ []) [])
      asking
    ≡ done true (record (message_of texts asking (codes "{}")) {
      io = record asking.io { read_total_bytes = 3; read_cursor = 3 };
      file = codes "abc";
      shared = State.next new_conn epollout asking.shared;
    })
process_in_whole_example =
    process_in_whole texts asking (codes "{}") 3 (codes "a" ∷ codes "bc" ∷ []) [] asking-Asks
      (omega arith, (omega arith, tt)) refl (omega arith)

process_in_early_example :
    process_in texts
      (RecvAnswer.received (header_bytes 3)
        ∷ RecvAnswer.received (c_str (codes "{}"))
        ∷ chunks (codes "a" ∷ []) (RecvAnswer.failed again ∷ []))
      asking
    ≡ fault
process_in_early_example =
    process_in_early texts asking (codes "{}") 3 (codes "a" ∷ []) again [] asking-Asks
      (omega arith, tt) (omega arith) (omega arith)
