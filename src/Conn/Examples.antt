-- ===== src/Conn/Examples.antt =====
-- Runs of a connection (core/include/conn.h) at concrete inputs.
use conv_event.Base.{◌≡◌, refl, true, false, [], ◌∷◌}
use conv_event.Conn.State.{
  set_nonblocking, epoll_ctl_add, Conn, Shared, Methods, Method, in_, new_conn, init, default_close,
  epoll_add,
}
use conv_event.Socket.State.{fd}

abbrev pub quiet : Shared
quiet = record { to_close = record { items = [] }; calls = [] }

abbrev pub connected : Conn
connected = record new_conn { socket_fd = fd 7; close_queue = true; status = in_ }

abbrev pub failing : Method
failing c w = (false, c, w)

abbrev pub methods : Methods
methods = record {
  process_in = failing;
  process_out = failing;
  process_rdhup = default_close;
  process_error = default_close;
}

-- EPOLLIN, EPOLLRDHUP and EPOLLONESHOT.
init_registers :
    (init new_conn (fd 7) 0 (fd 3) false true true true quiet).1.calls
    ≡ set_nonblocking (fd 7) ∷ epoll_ctl_add (fd 3) (fd 7) 0x40002001 ∷ []
unfolding init epoll_add
init_registers = refl
