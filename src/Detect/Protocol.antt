-- ===== src/Detect/Protocol.antt =====
-- What detect_conn (detect/detect_conn.h) makes of a message and the image behind it.
use conv_event.Base.{
  append_assoc, append-nil, ℕ, ◌+◌, ◌-◌, ◌≤◌, ◌<◌, ◌≡◌, ap, ◌∙◌, Bool, true, false, List, [], ◌∷◌,
  ◌++◌, arith, Bytes, codes, length, length-append, to_size, if◌then◌else◌,
}
use conv_event.Conn.State
use conv_event.Conn.State.{epollout}
use conv_event.Detect.{Library, DetectConn, done, fault, process_in, after_message, after_file}
use conv_event.Socket.Framing.{decoded, length-header_bytes, length-c_str, recv_with_header_fresh}
use conv_event.Socket.ReceiveErrors.{chunks, joined, NonEmpty}
use conv_event.Socket.Receiving.{
  RecvRun, FileRun, recv_with_header, latch, recv_file, recv_file_loop, start_read, advance_read,
  close_stream,
}
use conv_event.Socket.Reception.{recv_loop_done, recv_loop_received}
use conv_event.Socket.State.{SocketIo, Net, RecvAnswer, Errno, size_t_mod, header_bytes, c_str}

abbrev read_all : SocketIo → ℕ → SocketIo
read_all io n = record io { read_total_bytes = n; read_cursor = n }

recv_file_loop_done :
    (content : Bytes) (answers : List RecvAnswer) (io : SocketIo) (net : Net)
    → io.read_total_bytes ≤ io.read_cursor
    → recv_file_loop content answers io net
      ≡ FileRun.returned true content io (close_stream net) answers
unfolding recv_file_loop
recv_file_loop_done content [] io net h = ground arith
recv_file_loop_done content (RecvAnswer.received bytes ∷ answers) io net h = ground arith
recv_file_loop_done content (RecvAnswer.failed e ∷ answers) io net h = ground arith

recv_file_loop_received :
    (content bytes : Bytes) (answers : List RecvAnswer) (io : SocketIo) (net : Net)
    → io.read_cursor < io.read_total_bytes
    → 0 < length bytes
    → recv_file_loop content (RecvAnswer.received bytes ∷ answers) io net
      ≡ recv_file_loop (content ++ bytes) answers (advance_read io (length bytes)) net
unfolding recv_file_loop
recv_file_loop_received content bytes answers io net h some_bytes = ground arith

recv_file_loop_fails :
    (content : Bytes) (e : Errno) (answers : List RecvAnswer) (io : SocketIo) (net : Net)
    → io.read_cursor < io.read_total_bytes
    → recv_file_loop content (RecvAnswer.failed e ∷ answers) io net
      ≡ FileRun.fault io (record net { errno = e })
unfolding recv_file_loop
recv_file_loop_fails content e answers io net h = ground arith

-- The pieces of a file are all taken in, and the loop stands in front of the next call or is done.
recv_file_loop-chunks :
    (content : Bytes) (cs : List Bytes) (answers : List RecvAnswer) (io : SocketIo) (net : Net)
    (k : ℕ)
    → NonEmpty cs
    → io.read_cursor + length (joined cs) ≡ k
    → k ≤ io.read_total_bytes
    → io.read_total_bytes < size_t_mod
    → recv_file_loop content (chunks cs answers) io net
      ≡ recv_file_loop (content ++ joined cs) answers (record io { read_cursor = k }) net
recv_file_loop-chunks content [] answers io net k n e h w =
    let same : io.read_cursor ≡ k = omega arith in
    rw append-nil
      (ap (λ (t : ℕ). recv_file_loop content answers (record io { read_cursor = t }) net) same)
recv_file_loop-chunks content (bytes ∷ cs) answers io net k n e h w =
    let total = length-append bytes (joined cs) in
    let moved : (advance_read io (length bytes)).read_cursor ≡ io.read_cursor + length bytes =
      omega arith in
    recv_file_loop_received content bytes (chunks cs answers) io net (omega arith) n.0
    ∙ recv_file_loop-chunks (content ++ bytes) cs answers (advance_read io (length bytes)) net k n.1
        (omega arith) h w
    ∙ ap (λ (t : Bytes). recv_file_loop t answers (record io { read_cursor = k }) net)
        (append_assoc content bytes (joined cs))

-- A message that comes in one piece behind its header.
recv_with_header_whole :
    (text : Bytes) (answers : List RecvAnswer) (io : SocketIo) (net : Net)
    → io.already ≡ true
    → length text + 1 < size_t_mod
    → recv_with_header []
        (RecvAnswer.received (header_bytes (length text + 1))
          ∷ RecvAnswer.received (c_str text)
          ∷ answers)
        io
        net
      ≡ RecvRun.returned true
          (c_str text)
          (record (read_all io (length text + 1)) { already = true })
          net
          answers
recv_with_header_whole text answers io net a w =
    let n = length text + 1 in
    let io' = start_read io n in
    let moved : (advance_read io' (length (c_str text))).read_cursor ≡ n =
      omega (arith, length-c_str text) in
    recv_with_header_fresh [] (header_bytes n) (RecvAnswer.received (c_str text) ∷ answers) io net n
      a (length-header_bytes n) (decoded n w) (omega arith)
    ∙ ap latch (
        recv_loop_received [] (c_str text) answers io' net (omega arith)
          (omega (arith, length-c_str text))
        ∙ recv_loop_done (c_str text) answers (advance_read io' (length (c_str text))) net
            (omega (arith, moved)))
    ∙ ap
        (λ (t : ℕ).
          RecvRun.returned true (c_str text)
            (record io { read_total_bytes = n; read_cursor = t; already = true }) net answers)
        moved

-- The message `text` is read, and names the size of an image and its type.
pub record Asks {J R : Type 0} (lib : Library J R) (c : DetectConn J) (text : Bytes) (size : ℕ)
    : Type 0 where
  pub ready : c.io.already ≡ true
  pub short : length text + 1 < size_t_mod
  pub typed : lib.has_key (lib.load c.message (c_str text)) (codes "type") ≡ true
  pub sized : to_size (lib.as_int (lib.load c.message (c_str text)) (codes "size")) ≡ size
  pub writable : c.writable ≡ true

abbrev pub message_of : {J R : Type 0} → Library J R → DetectConn J → Bytes → DetectConn J
message_of lib c text = record c {
  io = record (read_all c.io (length text + 1)) { already = true };
  message = lib.load c.message (c_str text);
}

-- What the handler does once the message is read.
process_in-message :
    {J R : Type 0} (lib : Library J R) (c : DetectConn J) (text : Bytes) (size : ℕ)
    (answers : List RecvAnswer)
    → Asks lib c text size
    → process_in lib
        (RecvAnswer.received (header_bytes (length text + 1))
          ∷ RecvAnswer.received (c_str text)
          ∷ answers)
        c
      ≡ after_file lib
          (recv_file true size answers (message_of lib c text).io c.net)
          (message_of lib c text)
unfolding process_in
process_in-message lib c text size answers h =
    let c' = message_of lib c text in
    ap (λ r. after_message lib r c) (recv_with_header_whole text answers c.io c.net h.ready h.short)
    ∙ ap
        (λ (b : Bool).
          if b
          then after_file lib
              (recv_file c.writable (to_size (lib.as_int c'.message (codes "size"))) answers c'.io
                c'.net)
              c'
          else done false c')
        h.typed
    ∙ ap
        (λ b.
          after_file lib
            (recv_file b (to_size (lib.as_int c'.message (codes "size"))) answers c'.io c'.net) c')
        h.writable
    ∙ ap (λ n. after_file lib (recv_file true n answers c'.io c'.net) c') h.sized

recv_file-chunks :
    (cs : List Bytes) (size : ℕ) (answers : List RecvAnswer) (io : SocketIo) (net : Net)
    → NonEmpty cs
    → length (joined cs) ≡ size
    → size < size_t_mod
    → recv_file true size (chunks cs answers) io net
      ≡ FileRun.returned true (joined cs) (read_all io size) net answers
unfolding recv_file
recv_file-chunks cs size answers io net n e w =
    let opened = record net { open_files = net.open_files + 1 } in
    let same : net.open_files + 1 - 1 ≡ net.open_files = omega arith in
    recv_file_loop-chunks [] cs answers (start_read io size) opened size n (omega arith)
      (omega arith) w
    ∙ recv_file_loop_done (joined cs) answers (read_all io size) opened (omega arith)
    ∙ ap
        (λ (k : ℕ).
          FileRun.returned true (joined cs) (read_all io size) (record net { open_files = k })
            answers)
        same

recv_file-fails :
    (cs : List Bytes) (size : ℕ) (e : Errno) (answers : List RecvAnswer) (io : SocketIo) (net : Net)
    → NonEmpty cs
    → length (joined cs) < size
    → size < size_t_mod
    → recv_file true size (chunks cs (RecvAnswer.failed e ∷ answers)) io net
      ≡ FileRun.fault
          (record (start_read io size) { read_cursor = length (joined cs) })
          (record net { open_files = net.open_files + 1; errno = e })
unfolding recv_file
recv_file-fails cs size e answers io net n less w =
    let opened = record net { open_files = net.open_files + 1 } in
    let k = length (joined cs) in
    recv_file_loop-chunks [] cs (RecvAnswer.failed e ∷ answers) (start_read io size) opened k n
      (omega arith) (omega arith) w
    ∙ recv_file_loop_fails (joined cs) e answers (record (start_read io size) { read_cursor = k })
        opened less

-- A request that is there as a whole, its message in one piece behind the header and its image in any pieces, is
-- taken in: the image is the content of the file, the message is kept, no file is left open, and the connection
-- waits until it can be written to. The message names the size of the image and has a type.
pub process_in_whole :
    {J R : Type 0} (lib : Library J R) (c : DetectConn J) (text : Bytes) (size : ℕ)
    (cs : List Bytes) (answers : List RecvAnswer)
    → Asks lib c text size
    → NonEmpty cs
    → length (joined cs) ≡ size
    → size < size_t_mod
    → process_in lib
        (RecvAnswer.received (header_bytes (length text + 1))
          ∷ RecvAnswer.received (c_str text)
          ∷ chunks cs answers)
        c
      ≡ done true (record (message_of lib c text) {
        io = record (read_all c.io size) { already = true };
        file = joined cs;
        shared = State.next c.conn epollout c.shared;
      })
process_in_whole lib c text size cs answers h n e w =
    process_in-message lib c text size (chunks cs answers) h
    ∙ ap (λ r. after_file lib r (message_of lib c text))
        (recv_file-chunks cs size answers (message_of lib c text).io c.net n e w)

-- If the image is not there yet when the message is handled, so that a call of `recv` would block or fails
-- otherwise, the handler writes out of bounds: it takes the -1 for a size.
pub process_in_early :
    {J R : Type 0} (lib : Library J R) (c : DetectConn J) (text : Bytes) (size : ℕ)
    (cs : List Bytes) (e : Errno) (answers : List RecvAnswer)
    → Asks lib c text size
    → NonEmpty cs
    → length (joined cs) < size
    → size < size_t_mod
    → process_in lib
        (RecvAnswer.received (header_bytes (length text + 1))
          ∷ RecvAnswer.received (c_str text)
          ∷ chunks cs (RecvAnswer.failed e ∷ answers))
        c
      ≡ fault
process_in_early lib c text size cs e answers h n less w =
    process_in-message lib c text size (chunks cs (RecvAnswer.failed e ∷ answers)) h
    ∙ ap (λ r. after_file lib r (message_of lib c text))
        (recv_file-fails cs size e answers (message_of lib c text).io c.net n less w)
