-- ===== src/Socket/Examples.antt =====
-- Runs of socket_io (core/include/socket_io.h) at concrete inputs.
use conv_event.Base.{◌≡◌, refl, true, false, none, some, List, [], ◌∷◌, arith, Bytes, codes}
use conv_event.Socket.State.{
  SocketIo, Net, SendAnswer, RecvAnswer, fd, clear, again, bad_descriptor, header_bytes, c_str,
  size_max, at_most_buffer,
}
use conv_event.Socket.Sending
use conv_event.Socket.Sending.{SendRun, send_base, send, send_with_header, send_file}
use conv_event.Socket.Receiving
use conv_event.Socket.Receiving.{RecvRun, recv, recv_all, recv_with_header}
use conv_event.Socket.Resumption.{send_completes}
use conv_event.Socket.SendErrors.{send_failure_at_start, send_failure_repeats_byte}
use conv_event.Socket.Reception
use conv_event.Socket.Reception.{recv_completes}
use conv_event.Socket.ReceiveErrors.{recv_short, recv_all_closed}
use conv_event.Socket.Framing.{send_with_header_completes, recv_with_header_completes}

abbrev idle : SocketIo
idle = record {
  read_cursor = 0;
  write_cursor = 0;
  write_total_bytes = 0;
  read_total_bytes = 0;
  socket_fd = fd 5;
  already = true;
}

abbrev quiet : Net
quiet = record { wire = []; errno = clear; open_files = 0 }

-- Two of four bytes are out.
abbrev halfway : SocketIo
halfway = record idle { write_cursor = 2; write_total_bytes = 4; already = false }

abbrev hello : Bytes
hello = codes "hello"

send_in_pieces :
    send hello 5 (SendAnswer.sent 2 ∷ SendAnswer.sent 3 ∷ []) idle quiet
    ≡ Sending.returned true
        (record idle { write_cursor = 5; write_total_bytes = 5 })
        (record quiet { wire = hello })
        []
unfolding send send_base at_most_buffer
send_in_pieces = refl

-- The second byte is sent twice.
send_would_block :
    send hello 5 (SendAnswer.sent 2 ∷ SendAnswer.failed again ∷ SendAnswer.sent 4 ∷ []) idle quiet
    ≡ Sending.returned true
        (record idle { write_cursor = 5; write_total_bytes = 5 })
        (record quiet { wire = codes "heello"; errno = again })
        []
unfolding send send_base at_most_buffer
send_would_block = refl

send_missing_file :
    send_file none [] idle quiet
    ≡ Sending.returned true idle (record quiet { errno = bad_descriptor }) []
unfolding send_file
send_missing_file = refl

-- A file of five bytes, interrupted after two: the descriptor stays open.
send_file_would_block :
    send_file (some hello) (SendAnswer.sent 2 ∷ SendAnswer.failed again ∷ []) idle quiet
    ≡ Sending.returned false
        (record idle { write_cursor = 2; write_total_bytes = 5 })
        (record { wire = codes "he"; errno = again; open_files = 1 })
        []
unfolding send_file
send_file_would_block = refl

send_completes_example :
    (io' : SocketIo) × (net' : Net) × (rest : List SendAnswer) × (send
        (codes "ab")
        2
        (SendAnswer.sent 2 ∷ SendAnswer.sent 1 ∷ [])
        idle
        quiet
      ≡ Sending.returned true io' net' rest)
    × (net'.wire ≡ codes "ab")
    × (io'.already ≡ true)
unfolding at_most_buffer
send_completes_example =
    send_completes (codes "ab") 2 (SendAnswer.sent 2 ∷ SendAnswer.sent 1 ∷ []) idle quiet refl
      (omega arith) (omega arith) (omega arith) (omega arith) (omega arith)

send_failure_at_start_example :
    send hello 5 (SendAnswer.failed again ∷ []) idle quiet
    ≡ Sending.returned true
        (record idle { write_cursor = size_max; write_total_bytes = 5 })
        (record quiet { errno = again })
        []
send_failure_at_start_example =
    send_failure_at_start hello 5 again [] idle quiet refl (omega arith) (omega arith)

send_failure_repeats_byte_example :
    (io' : SocketIo) × (net' : Net) × (rest : List SendAnswer) × (send_base
        (codes "abcd")
        (SendAnswer.failed again ∷ SendAnswer.sent 1 ∷ SendAnswer.sent 1 ∷ SendAnswer.sent 1 ∷ [])
        halfway
        (record quiet { wire = codes "ab" })
      ≡ Sending.returned true io' net' rest)
    × (net'.wire ≡ codes "abbcd")
unfolding at_most_buffer
send_failure_repeats_byte_example =
    send_failure_repeats_byte (codes "abcd") again
      (SendAnswer.sent 1 ∷ SendAnswer.sent 1 ∷ SendAnswer.sent 1 ∷ []) halfway
      (record quiet { wire = codes "ab" }) (omega arith) (omega arith) (omega arith) (omega arith)
      (omega arith) (omega arith)

recv_completes_example :
    (io' : SocketIo) × (rest : List RecvAnswer) × (recv [] 5
        (RecvAnswer.received (codes "he")
          ∷ RecvAnswer.received (codes "llo")
          ∷ RecvAnswer.received (codes "x")
          ∷ [])
        idle
        quiet
      ≡ Receiving.returned true hello io' quiet rest)
    × (Reception.arrived rest ≡ codes "x")
    × (io'.already ≡ true)
unfolding at_most_buffer
recv_completes_example =
    recv_completes [] 5
      (RecvAnswer.received (codes "he")
        ∷ RecvAnswer.received (codes "llo")
        ∷ RecvAnswer.received (codes "x")
        ∷ [])
      idle quiet refl (omega arith) (omega arith) (omega arith) (omega arith)

recv_short_example :
    recv [] 9 (RecvAnswer.received hello ∷ RecvAnswer.failed again ∷ []) idle quiet
    ≡ Receiving.returned true hello
        (record idle { read_total_bytes = 9; read_cursor = 5 })
        (record quiet { errno = again })
        []
recv_short_example =
    recv_short [] 9 (hello ∷ []) [] idle quiet refl (omega arith) (omega arith) (omega arith)

-- The close of the peer, after an earlier call has met EAGAIN, reads as success.
recv_all_closed_example :
    recv_all [] (RecvAnswer.received [] ∷ []) idle (record quiet { errno = again })
    ≡ Receiving.returned true []
        (record idle { read_total_bytes = size_max })
        (record quiet { errno = again })
        []
recv_all_closed_example =
    recv_all_closed [] [] [] idle (record quiet { errno = again }) refl tt (omega arith)

send_with_header_completes_example :
    (io' : SocketIo) × (net' : Net) × (rest : List SendAnswer) × (send_with_header
        (codes "a")
        (SendAnswer.sent 8 ∷ SendAnswer.sent 1 ∷ SendAnswer.sent 1 ∷ [])
        idle
        quiet
      ≡ Sending.returned true io' net' rest)
    × (net'.wire ≡ 2 ∷ 0 ∷ 0 ∷ 0 ∷ 0 ∷ 0 ∷ 0 ∷ 0 ∷ b'a' ∷ 0 ∷ [])
    × (io'.already ≡ true)
unfolding at_most_buffer header_bytes
send_with_header_completes_example =
    send_with_header_completes (codes "a") (SendAnswer.sent 1 ∷ SendAnswer.sent 1 ∷ []) idle quiet
      refl (omega arith) (omega arith) (omega arith) (omega arith) (omega arith)

recv_with_header_completes_example :
    (io' : SocketIo) × (rest : List RecvAnswer) × (recv_with_header []
        (RecvAnswer.received (header_bytes 2)
          ∷ RecvAnswer.received (codes "a")
          ∷ RecvAnswer.received (0 ∷ [])
          ∷ [])
        idle
        quiet
      ≡ Receiving.returned true (c_str (codes "a")) io' quiet rest)
    × (Reception.arrived rest ≡ [])
    × (io'.already ≡ true)
unfolding at_most_buffer header_bytes
recv_with_header_completes_example =
    recv_with_header_completes (codes "a") (header_bytes 2) []
      (RecvAnswer.received (codes "a") ∷ RecvAnswer.received (0 ∷ []) ∷ []) idle quiet refl
      (omega arith) refl refl (omega arith)
