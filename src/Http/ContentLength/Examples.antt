-- ===== src/Http/ContentLength/Examples.antt =====
-- The theorems on the body of a request in http/http_conn.h at concrete inputs.
use conv_event.Base.{◌≡◌, refl, true, List, [], ◌∷◌, arith, codes}
use conv_event.Http.ContentLength.{complete, incomplete, read_body}
use conv_event.Http.ContentLength.Waiting.{read_body_closed, read_body_completes}
use conv_event.Socket.Reception.{arrived}
use conv_event.Socket.State.{SocketIo, Net, fd, Errno, RecvAnswer, at_most_buffer}

abbrev ready_io : SocketIo
ready_io = record {
  read_cursor = 0;
  write_cursor = 0;
  write_total_bytes = 0;
  read_total_bytes = 0;
  socket_fd = fd 5;
  already = true;
}

abbrev quiet_net : Net
quiet_net = record { wire = []; errno = Errno.clear; open_files = 0 }

read_body_closed_example :
    read_body 100 3
      (codes "a=")
      (RecvAnswer.received [] ∷ RecvAnswer.received [] ∷ [])
      ready_io
      quiet_net
    ≡ incomplete
read_body_closed_example =
    read_body_closed 100 3 (codes "a=") (RecvAnswer.received [] ∷ RecvAnswer.received [] ∷ [])
      ready_io quiet_net (omega arith) tt

read_body_completes_example :
    (io' : SocketIo) × (rest : List RecvAnswer) × (read_body 2 4
        (codes "a=")
        (RecvAnswer.received (codes "1") ∷ RecvAnswer.received (codes "2") ∷ [])
        ready_io
        quiet_net
      ≡ complete (codes "a=12") io' quiet_net rest)
    × (arrived rest ≡ [])
unfolding at_most_buffer
read_body_completes_example =
    read_body_completes 0 4 (codes "a=")
      (RecvAnswer.received (codes "1") ∷ RecvAnswer.received (codes "2") ∷ []) ready_io quiet_net
      refl (omega arith) (omega arith) (omega arith) (omega arith)
