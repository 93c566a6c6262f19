-- ===== src/Detect.antt =====
-- detect_conn of detect/detect_conn.h: a connection that asks for an image and answers what it shows. The JSON
-- library and the detectors (detect/detector.h, over PyTorch and OpenCV) are parameters.
mod Protocol
mod Examples
use conv_event.Base.{
  ℕ, Bool, true, false, List, [], Option, none, some, Bytes, codes, ℤ, to_size, if◌then◌else◌,
}
use conv_event.Conn.State
use conv_event.Conn.State.{Conn, Shared, epollout}
use conv_event.Socket.Receiving.{RecvRun, FileRun, recv_with_header, recv_file}
use conv_event.Socket.Sending.{SendRun, send_with_header}
use conv_event.Socket.State.{SocketIo, Net, RecvAnswer, SendAnswer}

-- What the code uses of json, whose values are of type J, and of the detectors: `detectors.find(type)`, and
-- `predict` on the content of the file, which names a label and a percentage.
pub record Library (J R : Type 0) : Type 0 where
  pub load : J → Bytes → J
  pub has_key : J → Bytes → Bool
  pub as_int : J → Bytes → ℤ
  pub as_text : J → Bytes → Bytes
  pub clear : J → J
  pub assign : J → Bytes → R → J
  pub dump : J → Bytes
  pub detector : Bytes → Option (Bytes → Bytes × R)

-- `file` is the content of "tmp.jpg", which all connections share, and `writable` whether it can be opened.
pub record DetectConn (J : Type 0) : Type 0 where
  pub io : SocketIo
  pub conn : Conn
  pub message : J
  pub net : Net
  pub shared : Shared
  pub file : Bytes
  pub writable : Bool

-- The handler returns, or it is a fault, or it waits in a call.
pub data Handled (J : Type 0) : Type 0 where
  done : Bool → DetectConn J → Handled J
  fault waiting : Handled J

module _ {J R : Type 0} (lib : Library J R) where
  abbrev pub after_file : FileRun → DetectConn J → Handled J
  after_file (FileRun.returned true content io net answers) c = done true (record c {
    io = io;
    net = net;
    file = content;
    shared = State.next c.conn epollout c.shared;
  })
  after_file (FileRun.returned false content io net answers) c =
      done false (record c { io = io; net = net; file = content })
  after_file (FileRun.waiting content io net) c = waiting
  after_file (FileRun.fault io net) c = fault

  abbrev pub after_message : RecvRun → DetectConn J → Handled J
  after_message (RecvRun.returned false text io net answers) c =
      done false (record c { io = io; net = net })
  after_message (RecvRun.returned true text io net answers) c =
      let message = lib.load c.message text in
      let c' = record c { io = io; net = net; message = message } in
      if lib.has_key message (codes "type")
      then after_file
          (recv_file c.writable (to_size (lib.as_int message (codes "size"))) answers io net) c'
      else done false c'
  after_message (RecvRun.waiting text io net) c = waiting

  unfoldable pub process_in : List RecvAnswer → DetectConn J → Handled J
  unfolding recv_with_header recv_file
  process_in answers c = after_message (recv_with_header [] answers c.io c.net) c

  abbrev pub after_send : SendRun → DetectConn J → Handled J
  after_send (SendRun.returned ok io net answers) c = done ok (record c { io = io; net = net })
  after_send (SendRun.waiting io net) c = waiting

  abbrev pub answer : Option (Bytes → Bytes × R) → List SendAnswer → DetectConn J → Handled J
  answer none answers c = done false c
  answer (some predict) answers c =
      let (label, percent) = predict c.file in
      let message = lib.assign (lib.clear c.message) label percent in
      after_send (send_with_header (lib.dump message) answers c.io c.net)
        (record c { message = message })

  unfoldable pub process_out : List SendAnswer → DetectConn J → Handled J
  unfolding send_with_header
  process_out answers c = answer (lib.detector (lib.as_text c.message (codes "type"))) answers c
