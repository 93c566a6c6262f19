-- ===== src/Socket/Receiving.antt =====
-- The receiving half of socket_io.
use conv_event.Base.{
  ℕ, ◌+◌, ◌-◌, ◌%◌, Bool, true, false, ◌&&◌, List, [], ◌∷◌, ◌++◌, Bytes, length, ltb, leb,
  if◌then◌else◌,
}
use conv_event.Socket.State.{
  SocketIo, Net, RecvAnswer, is_again, size_t_mod, size_max, from_little_endian,
}

-- A run ends with a result and the string `data`, or waits in a call.
pub data RecvRun : Type 0 where
  returned : Bool → Bytes → SocketIo → Net → List RecvAnswer → RecvRun
  waiting : Bytes → SocketIo → Net → RecvRun

abbrev pub advance_read : SocketIo → ℕ → SocketIo
advance_read io count = record io { read_cursor = (io.read_cursor + count) % size_t_mod }

-- The loop of recv_base. A count of 0 leaves `errno` as it was, and it is read all the same.
unfoldable pub recv_loop : Bytes → List RecvAnswer → SocketIo → Net → RecvRun
recv_loop text [] io net =
    if ltb io.read_cursor io.read_total_bytes
    then waiting text io net
    else returned true text io net []
recv_loop text (RecvAnswer.received bytes ∷ answers) io net =
    let rest = recv_loop (text ++ bytes) answers (advance_read io (length bytes)) net in
    if ltb io.read_cursor io.read_total_bytes
    then if leb (length bytes) 0 then returned (is_again net.errno) text io net answers else rest
    else returned true text io net (RecvAnswer.received bytes ∷ answers)
recv_loop text (RecvAnswer.failed e ∷ answers) io net =
    if ltb io.read_cursor io.read_total_bytes
    then returned (is_again e) text io (record net { errno = e }) answers
    else returned true text io net (RecvAnswer.failed e ∷ answers)

unfoldable pub recv_base : Bytes → List RecvAnswer → SocketIo → Net → RecvRun
recv_base text answers io net =
    if leb io.read_total_bytes 0
    then returned false text io net answers
    else recv_loop text answers io net

-- `already = recv_base(data); return already;`
abbrev pub latch : RecvRun → RecvRun
latch (returned ok text io net answers) = returned ok text (record io { already = ok }) net answers
latch (waiting text io net) = waiting text io net

abbrev pub start_read : SocketIo → ℕ → SocketIo
start_read io size = record io { read_total_bytes = size; read_cursor = 0 }

unfoldable pub recv : Bytes → ℕ → List RecvAnswer → SocketIo → Net → RecvRun
unfolding recv_base
recv text size answers io net =
    latch (recv_base text answers (if io.already then start_read io size else io) net)

-- Everything that the kernel holds: the total is SIZE_MAX.
unfoldable pub recv_all : Bytes → List RecvAnswer → SocketIo → Net → RecvRun
unfolding recv_base
recv_all text answers io net =
    latch (recv_base text answers (if io.already then start_read io size_max else io) net)

-- The header is read by one call into a zeroed struct, of which it may fill a part.
unfoldable pub recv_with_header : Bytes → List RecvAnswer → SocketIo → Net → RecvRun
unfolding recv_base
recv_with_header text [] io net =
    if io.already then waiting text io net else latch (recv_base text [] io net)
recv_with_header text (RecvAnswer.received bytes ∷ answers) io net =
    if io.already
    then if leb (length bytes) 0
      then returned false text io net answers
      else latch (recv_base text answers (start_read io (from_little_endian bytes)) net)
    else latch (recv_base text (RecvAnswer.received bytes ∷ answers) io net)
recv_with_header text (RecvAnswer.failed e ∷ answers) io net =
    if io.already
    then returned false text io (record net { errno = e }) answers
    else latch (recv_base text (RecvAnswer.failed e ∷ answers) io net)

-- recv_file writes to a stream that is closed on one path only. The count is a `size_t`, so an error
-- passes the test and `fwrite` is told to write SIZE_MAX bytes: a fault.
pub data FileRun : Type 0 where
  returned : Bool → Bytes → SocketIo → Net → List RecvAnswer → FileRun
  waiting : Bytes → SocketIo → Net → FileRun
  fault : SocketIo → Net → FileRun

abbrev pub close_stream : Net → Net
close_stream net = record net { open_files = net.open_files - 1 }

unfoldable pub recv_file_loop : Bytes → List RecvAnswer → SocketIo → Net → FileRun
recv_file_loop content [] io net =
    if ltb io.read_cursor io.read_total_bytes
    then waiting content io net
    else returned true content io (close_stream net) []
recv_file_loop content (RecvAnswer.received bytes ∷ answers) io net =
    let rest = recv_file_loop (content ++ bytes) answers (advance_read io (length bytes)) net in
    if ltb io.read_cursor io.read_total_bytes
    then if leb (length bytes) 0 then returned (is_again net.errno) content io net answers else rest
    else returned true content io (close_stream net) (RecvAnswer.received bytes ∷ answers)
recv_file_loop content (RecvAnswer.failed e ∷ answers) io net =
    if ltb io.read_cursor io.read_total_bytes
    then fault io (record net { errno = e })
    else returned true content io (close_stream net) (RecvAnswer.failed e ∷ answers)

-- With the null stream that a failed `fopen` returns, the first use of the stream is a fault.
unfoldable pub recv_to_null : List RecvAnswer → SocketIo → Net → FileRun
recv_to_null [] io net =
    if ltb io.read_cursor io.read_total_bytes then waiting [] io net else fault io net
recv_to_null (RecvAnswer.received bytes ∷ answers) io net =
    if ltb io.read_cursor io.read_total_bytes && leb (length bytes) 0
    then returned (is_again net.errno) [] io net answers
    else fault io net
recv_to_null (RecvAnswer.failed e ∷ answers) io net =
    fault io (if ltb io.read_cursor io.read_total_bytes then record net { errno = e } else net)

-- `opened` tells whether `fopen` finds the path writable.
unfoldable pub recv_file : Bool → ℕ → List RecvAnswer → SocketIo → Net → FileRun
unfolding recv_file_loop recv_to_null
recv_file true size answers io net =
    recv_file_loop [] answers (start_read io size) (record net { open_files = net.open_files + 1 })
recv_file false size answers io net = recv_to_null answers (start_read io size) net
