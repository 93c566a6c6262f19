-- ===== src/Socket/ReceiveErrors.antt =====
-- What the receiving code of core/include/socket_io.h reports when the stream stops early.
use conv_event.Base.{
  ℕ, ◌+◌, ◌<◌, ◌≡◌, ap, ◌∙◌, true, List, [], ◌∷◌, ◌++◌, append-nil, append_assoc, arith, Bytes,
  length, length-append,
}
use conv_event.Socket.State.{
  SocketIo, Net, Errno, again, is_again, RecvAnswer, size_t_mod, size_max,
}
use conv_event.Socket.Receiving.{
  returned, advance_read, recv_loop, latch, start_read, recv, recv_all,
}
use conv_event.Socket.Reception.{recv_loop_received}

-- Chunks as the kernel hands them out.
abbrev pub chunks : List Bytes → List RecvAnswer → List RecvAnswer
chunks [] answers = answers
chunks (bytes ∷ more) answers = RecvAnswer.received bytes ∷ chunks more answers

abbrev pub joined : List Bytes → Bytes
joined [] = []
joined (bytes ∷ more) = bytes ++ joined more

abbrev pub NonEmpty : List Bytes → Type 0
NonEmpty [] = Unit {0}
NonEmpty (bytes ∷ more) = (0 < length bytes) × NonEmpty more

abbrev read_at : SocketIo → ℕ → SocketIo
read_at io n = record io { read_cursor = n }

-- Fewer bytes than the total are all taken in, and the loop stands in front of the next call.
recv_loop-chunks :
    (text : Bytes) (cs : List Bytes) (answers : List RecvAnswer) (io : SocketIo) (net : Net) (k : ℕ)
    → NonEmpty cs
    → io.read_cursor + length (joined cs) ≡ k
    → k < io.read_total_bytes
    → io.read_total_bytes < size_t_mod
    → recv_loop text (chunks cs answers) io net
      ≡ recv_loop (text ++ joined cs) answers (read_at io k) net
recv_loop-chunks text [] answers io net k n e h w =
    let same : io.read_cursor ≡ k = omega arith in
    rw append-nil (ap (λ (t : ℕ). recv_loop text answers (read_at io t) net) same)
recv_loop-chunks text (bytes ∷ cs) answers io net k n e h w =
    let total = length-append bytes (joined cs) in
    let moved : (advance_read io (length bytes)).read_cursor ≡ io.read_cursor + length bytes =
      omega arith in
    recv_loop_received text bytes (chunks cs answers) io net (omega arith) n.0
    ∙ recv_loop-chunks (text ++ bytes) cs answers (advance_read io (length bytes)) net k n.1
        (omega arith) h w
    ∙ ap (λ (t : Bytes). recv_loop t answers (read_at io k) net)
        (append_assoc text bytes (joined cs))

recv_loop_stops :
    (text : Bytes) (e : Errno) (answers : List RecvAnswer) (io : SocketIo) (net : Net)
    → io.read_cursor < io.read_total_bytes
    → recv_loop text (RecvAnswer.failed e ∷ answers) io net
      ≡ returned (is_again e) text io (record net { errno = e }) answers
unfolding recv_loop
recv_loop_stops text e answers io net h = ground arith

recv_loop_closed :
    (text : Bytes) (answers : List RecvAnswer) (io : SocketIo) (net : Net)
    → io.read_cursor < io.read_total_bytes
    → recv_loop text (RecvAnswer.received [] ∷ answers) io net
      ≡ returned (is_again net.errno) text io net answers
unfolding recv_loop
recv_loop_closed text answers io net h = ground arith

recv_fresh :
    (text : Bytes) (size : ℕ) (answers : List RecvAnswer) (io : SocketIo) (net : Net)
    → io.already ≡ true
    → 0 < size
    → recv text size answers io net ≡ latch (recv_loop text answers (start_read io size) net)
unfolding recv
recv_fresh text size answers io net a pos = ground arith

recv_all_fresh :
    (text : Bytes) (answers : List RecvAnswer) (io : SocketIo) (net : Net)
    → io.already ≡ true
    → recv_all text answers io net ≡ latch (recv_loop text answers (start_read io size_max) net)
unfolding recv_all
recv_all_fresh text answers io net a = ground arith

-- `recv_all` gathers every byte that the kernel holds, in order, and returns true when the next call
-- would block.
pub recv_all_drains :
    (text : Bytes) (cs : List Bytes) (answers : List RecvAnswer) (io : SocketIo) (net : Net)
    → io.already ≡ true
    → NonEmpty cs
    → length (joined cs) < size_max
    → recv_all text (chunks cs (RecvAnswer.failed again ∷ answers)) io net
      ≡ returned true
          (text ++ joined cs)
          (record io {
            read_total_bytes = size_max;
            read_cursor = length (joined cs);
            already = true;
          })
          (record net { errno = again })
          answers
recv_all_drains text cs answers io net a n h =
    recv_all_fresh text (chunks cs (RecvAnswer.failed again ∷ answers)) io net a
    ∙ ap latch (
        recv_loop-chunks text cs (RecvAnswer.failed again ∷ answers) (start_read io size_max) net
          (length (joined cs)) n (omega arith) h (omega arith))
    ∙ ap latch (
        recv_loop_stops (text ++ joined cs) again answers
          (read_at (start_read io size_max) (length (joined cs))) net h)

-- `recv` of `size` bytes also returns true when a call would block before they are there: it has
-- taken the bytes so far and is ready for a new message, so the next call asks for `size` bytes anew.
pub recv_short :
    (text : Bytes) (size : ℕ) (cs : List Bytes) (answers : List RecvAnswer) (io : SocketIo)
    (net : Net)
    → io.already ≡ true
    → size < size_t_mod
    → NonEmpty cs
    → length (joined cs) < size
    → recv text size (chunks cs (RecvAnswer.failed again ∷ answers)) io net
      ≡ returned true
          (text ++ joined cs)
          (record io { read_total_bytes = size; read_cursor = length (joined cs); already = true })
          (record net { errno = again })
          answers
recv_short text size cs answers io net a w n h =
    recv_fresh text size (chunks cs (RecvAnswer.failed again ∷ answers)) io net a (omega arith)
    ∙ ap latch (
        recv_loop-chunks text cs (RecvAnswer.failed again ∷ answers) (start_read io size) net
          (length (joined cs)) n (omega arith) h w)
    ∙ ap latch (
        recv_loop_stops (text ++ joined cs) again answers
          (read_at (start_read io size) (length (joined cs))) net h)

-- When the peer closes, the result of `recv_all` is that of a test on an `errno` which recv has not
-- set: true exactly when some earlier call of the thread left EAGAIN there.
pub recv_all_closed :
    (text : Bytes) (cs : List Bytes) (answers : List RecvAnswer) (io : SocketIo) (net : Net)
    → io.already ≡ true
    → NonEmpty cs
    → length (joined cs) < size_max
    → recv_all text (chunks cs (RecvAnswer.received [] ∷ answers)) io net
      ≡ returned
          (is_again net.errno)
          (text ++ joined cs)
          (record io {
            read_total_bytes = size_max;
            read_cursor = length (joined cs);
            already = is_again net.errno;
          })
          net
          answers
recv_all_closed text cs answers io net a n h =
    recv_all_fresh text (chunks cs (RecvAnswer.received [] ∷ answers)) io net a
    ∙ ap latch (
        recv_loop-chunks text cs (RecvAnswer.received [] ∷ answers) (start_read io size_max) net
          (length (joined cs)) n (omega arith) h (omega arith))
    ∙ ap latch (
        recv_loop_closed (text ++ joined cs) answers
          (read_at (start_read io size_max) (length (joined cs))) net h)
