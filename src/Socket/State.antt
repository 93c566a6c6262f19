-- ===== src/Socket/State.antt =====
-- The members of socket_io (core/include/socket_io.h), what the system calls answer, and the header
-- of core/include/utils.h. The two 2048-byte buffers are scratch, zeroed and filled again before each
-- system call, so only their size is kept.
use conv_event.Base.{
  ℕ, zero, suc, ◌+◌, ◌-◌, ◌*◌, ◌/◌, ◌%◌, ◌^◌, Bool, true, false, [], ◌∷◌, ◌++◌, Bytes, ltb,
  if◌then◌else◌,
}

-- `-1` is no descriptor.
pub data Fd : Type 0 where
  fd : ℕ → Fd
  no_fd : Fd

pub record SocketIo : Type 0 where
  pub read_cursor : ℕ
  pub write_cursor : ℕ
  pub write_total_bytes : ℕ
  pub read_total_bytes : ℕ
  pub socket_fd : Fd
  pub already : Bool

-- EAGAIN and EWOULDBLOCK are one value on Linux.
pub data Errno : Type 0 where
  clear again interrupted bad_descriptor other : Errno

abbrev pub is_again : Errno → Bool
is_again again = true
is_again _ = false

-- What the calls leave behind: the bytes that the peer will read, `errno`, the files left open.
pub record Net : Type 0 where
  pub wire : Bytes
  pub errno : Errno
  pub open_files : ℕ

-- `size_t` has 64 bits, and -1 converts to its greatest value.
abbrev pub size_t_mod : ℕ
size_t_mod = 2 ^ 64

abbrev pub size_max : ℕ
size_max = 2 ^ 64 - 1

abbrev pub buffer_size : ℕ
buffer_size = 2048

-- The answer to one send, sendfile: a count, or -1 with `errno`.
pub data SendAnswer : Type 0 where
  sent : ℕ → SendAnswer
  failed : Errno → SendAnswer

-- The answer to one recv. No bytes is the count 0, by which the kernel reports the peer's close.
pub data RecvAnswer : Type 0 where
  received : Bytes → RecvAnswer
  failed : Errno → RecvAnswer

-- `x > sizeof(buffer) ? sizeof(buffer) : x`
unfoldable pub at_most_buffer : ℕ → ℕ
at_most_buffer n = if ltb buffer_size n then buffer_size else n

-- The 8 bytes of `struct header`, in the order of a little-endian machine.
unfoldable pub little_endian : ℕ → ℕ → Bytes
little_endian zero n = []
little_endian (suc k) n = n % 256 ∷ little_endian k (n / 256)

unfoldable pub from_little_endian : Bytes → ℕ
from_little_endian [] = 0
from_little_endian (b ∷ bs) = b + 256 * from_little_endian bs

unfoldable pub header_bytes : ℕ → Bytes
unfolding little_endian
header_bytes size = little_endian 8 size

-- `c_str()`
abbrev pub c_str : Bytes → Bytes
c_str text = text ++ (0 ∷ [])
