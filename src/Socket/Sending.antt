-- ===== src/Socket/Sending.antt =====
-- The sending half of socket_io. A run takes the answers of the system calls as a list, and waits in
-- the next call where the list ends.
use conv_event.Base.{
  ℕ, ◌+◌, ◌-◌, ◌%◌, Bool, true, false, Option, none, some, List, [], ◌∷◌, ◌++◌, Bytes, length, take,
  drop, ltb, leb, ◌==◌, if◌then◌else◌,
}
use conv_event.Socket.State.{
  SocketIo, Net, SendAnswer, is_again, size_t_mod, size_max, bad_descriptor, at_most_buffer,
  header_bytes, c_str,
}

pub data SendRun : Type 0 where
  returned : Bool → SocketIo → Net → List SendAnswer → SendRun
  waiting : SocketIo → Net → SendRun

-- The result in a `size_t`, where -1 is a large number.
abbrev pub send_count : SendAnswer → ℕ
send_count (SendAnswer.sent n) = n
send_count (SendAnswer.failed e) = size_max

-- What one call leaves on the wire, of the bytes that it was handed.
abbrev pub transmit : Bytes → SendAnswer → Net → Net
transmit chunk (SendAnswer.sent n) net = record net { wire = net.wire ++ take n chunk }
transmit chunk (SendAnswer.failed e) net = record net { errno = e }

abbrev pub need_to_send : SocketIo → ℕ
need_to_send io = io.write_total_bytes - io.write_cursor

-- The part of `data` that is copied into the write buffer.
abbrev pub chunk_of : Bytes → SocketIo → Bytes
chunk_of bytes io = take (at_most_buffer (need_to_send io)) (drop io.write_cursor bytes)

abbrev pub advance : SocketIo → ℕ → SocketIo
advance io count = record io { write_cursor = (io.write_cursor + count) % size_t_mod }

unfoldable pub send_base : Bytes → List SendAnswer → SocketIo → Net → SendRun
send_base bytes [] io net =
    if ltb io.write_cursor io.write_total_bytes then waiting io net else returned true io net []
send_base bytes (a ∷ answers) io net =
    let net' = transmit (chunk_of bytes io) a net in
    let rest = send_base bytes answers (advance io (send_count a)) net' in
    if ltb io.write_cursor io.write_total_bytes
    then if leb (send_count a) 0 then returned false io net' answers else rest
    else returned true io net (a ∷ answers)

-- `already = send_base(data); return already;`
abbrev pub latch : SendRun → SendRun
latch (returned ok io net answers) = returned ok (record io { already = ok }) net answers
latch (waiting io net) = waiting io net

abbrev pub start_write : SocketIo → ℕ → SocketIo
start_write io size = record io { write_total_bytes = size; write_cursor = 0 }

-- The three overloads differ in the type of `data` alone; `bytes` is what its pointer leads to.
unfoldable pub send : Bytes → ℕ → List SendAnswer → SocketIo → Net → SendRun
send bytes size answers io net =
    let io' = start_write io size in
    if io.already
    then if leb size 0
      then returned false io' net answers
      else latch (send_base bytes answers io' net)
    else latch (send_base bytes answers io net)

-- The header goes out in one call, whose count is compared as a signed number.
unfoldable pub send_header :
    Bytes → List SendAnswer → SocketIo → Net → (List SendAnswer → Net → SendRun) → SendRun
send_header header [] io net k = waiting io net
send_header header (SendAnswer.sent n ∷ answers) io net k =
    let net' = transmit header (SendAnswer.sent n) net in
    if leb n 0 then returned false io net' answers else k answers net'
send_header header (SendAnswer.failed e ∷ answers) io net k =
    returned false io (transmit header (SendAnswer.failed e) net) answers

-- `text` is the string without its closing zero, which is sent with it.
unfoldable pub send_with_header : Bytes → List SendAnswer → SocketIo → Net → SendRun
unfolding send_header
send_with_header text answers io net =
    let size = (length text + 1) % size_t_mod in
    let io' = start_write io size in
    if io.already
    then if leb size 1
      then returned false io' net answers
      else send_header (header_bytes size) answers io' net
          (λ answers' net'. latch (send_base (c_str text) answers' io' net'))
    else latch (send_base (c_str text) answers io net)

-- `close(file_fd)`
abbrev pub close_file : Net → Net
close_file net = record net { open_files = net.open_files - 1 }

-- The loop over sendfile; `content` is the file's.
unfoldable pub sendfile_loop : Bytes → List SendAnswer → SocketIo → Net → SendRun
sendfile_loop content [] io net =
    if ltb io.write_cursor io.write_total_bytes
    then waiting io net
    else returned true io (close_file net) []
sendfile_loop content (a ∷ answers) io net =
    let net' = transmit (take (need_to_send io) (drop io.write_cursor content)) a net in
    let rest = sendfile_loop content answers (advance io (send_count a)) net' in
    if ltb io.write_cursor io.write_total_bytes
    then if send_count a == size_max
      then returned false io (if is_again net'.errno then net' else close_file net') answers
      else rest
    else returned true io (close_file net) (a ∷ answers)

-- `file` is what `open` finds under the name. Where it finds none, `fstat(-1)` and
-- `close(-1)` fail, the `stat` stays zeroed, and `errno` is EBADF in the end.
unfoldable pub send_file : Option Bytes → List SendAnswer → SocketIo → Net → SendRun
unfolding sendfile_loop
send_file none answers io net =
    returned true (start_write io 0) (record net { errno = bad_descriptor }) answers
send_file (some content) answers io net =
    sendfile_loop content answers (start_write io (length content))
      (record net { open_files = net.open_files + 1 })
