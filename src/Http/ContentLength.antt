-- ===== src/Http/ContentLength.antt =====
-- How `process_in` of http/http_conn.h reads the rest of a request's body. `recv` is that of
-- core/include/socket_io.h.
pub mod Numbers
pub mod Waiting
mod Examples
use conv_event.Base.{
  ℕ, zero, suc, ◌+◌, ◌-◌, ◌*◌, ◌^◌, ◌%◌, Bool, true, false, ◌&&◌, ◌||◌, List, [], ◌∷◌, Option, none,
  some, Bytes, codes, length, ltb, leb, ◌==◌, if◌then◌else◌, lookup,
}
use conv_event.Socket.Receiving
use conv_event.Socket.Receiving.{RecvRun, returned, waiting}
use conv_event.Socket.State.{SocketIo, Net, RecvAnswer, size_t_mod}

abbrev pub is_digit : ℕ → Bool
is_digit c = leb 48 c && leb c 57

abbrev pub is_white : ℕ → Bool
is_white c = (c == 32) || (leb 9 c && leb c 13)

unfoldable pub read_digits : ℕ → Bytes → ℕ
read_digits n [] = n
read_digits n (c ∷ text) = if is_digit c then read_digits (n * 10 + (c - 48)) text else n

-- The greatest `long long`, at which strtoll stops.
abbrev pub at_most : ℕ → ℕ → ℕ
at_most limit n = if ltb limit n then limit else n

abbrev pub skip_white : Bytes → Bytes
skip_white [] = []
skip_white (c ∷ text) = if is_white c then skip_white text else c ∷ text

-- `strtoll(…,nullptr,10)`, converted to a `size_t`.
unfoldable pub signed_number : Bytes → ℕ
unfolding read_digits
signed_number [] = 0
signed_number (c ∷ text) =
    if c == 45
    then (size_t_mod - at_most (2 ^ 63) (read_digits 0 text)) % size_t_mod
    else if c == 43
    then at_most (2 ^ 63 - 1) (read_digits 0 text)
    else at_most (2 ^ 63 - 1) (read_digits 0 (c ∷ text))

unfoldable pub strtoll : Bytes → ℕ
unfolding signed_number
strtoll text = signed_number (skip_white text)

-- The first value of a header; none where `[0]` reads what is not there.
unfoldable pub first_value : Option (List Bytes) → Option Bytes
first_value none = none
first_value (some []) = none
first_value (some (v ∷ values)) = some v

-- The loop ends with the body, or it is still running: in its next round or in a call.
pub data BodyRun : Type 0 where
  complete : Bytes → SocketIo → Net → List RecvAnswer → BodyRun
  incomplete : BodyRun

abbrev pub next_round : (Bytes → List RecvAnswer → SocketIo → Net → BodyRun) → RecvRun → BodyRun
next_round again (returned b body io net answers) = again body answers io net
next_round again (waiting body io net) = incomplete

-- `while(… > body.size()) recv(body,cur - body.size());` on fuel. The result of `recv` is not looked at.
unfoldable pub read_body : ℕ → ℕ → Bytes → List RecvAnswer → SocketIo → Net → BodyRun
read_body zero total body answers io net = incomplete
read_body (suc fuel) total body answers io net =
    let more =
      next_round (read_body fuel total)
        (Receiving.recv body (total - length body) answers io net) in
    if ltb (length body) total then more else complete body io net answers

-- The body of a POST request; none where the header is missing.
unfoldable pub read_post_body :
    ℕ → List (Bytes × List Bytes) → Bytes → List RecvAnswer → SocketIo → Net → Option BodyRun
unfolding first_value read_body strtoll
read_post_body fuel headers body answers io net =
    elim (first_value (lookup (codes "Content-Length") headers)) [
      | none ↦ none
      | some text ↦ some (read_body fuel (strtoll text) body answers io net)
    ]
