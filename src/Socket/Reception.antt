-- ===== src/Socket/Reception.antt =====
-- What the receiving loop of core/include/socket_io.h collects from the wire.
use conv_event.Base.{
  ℕ, zero, suc, ◌+◌, ◌-◌, ◌≤◌, ◌<◌, ◌≡◌, refl, ap, subst, ◌∙◌, inl, inr, true, List, [], ◌∷◌, ◌++◌,
  append-nil, append_assoc, arith, Bytes, length, take, drop, ltb, Bool-cases, length-append,
}
use conv_event.Socket.State.{SocketIo, Net, RecvAnswer, size_t_mod, at_most_buffer}
use conv_event.Socket.Delivery.{at_most_buffer-le}
use conv_event.Socket.Receiving.{
  RecvRun, returned, advance_read, recv_loop, latch, start_read, recv,
}

abbrev pub need_to_read : SocketIo → ℕ
need_to_read io = io.read_total_bytes - io.read_cursor

-- The documented contract of recv, of the answers that a loop with `need` bytes to go meets: at least
-- one byte, and no more than were asked for. None of them is an error or the peer's close.
abbrev pub Honest : ℕ → List RecvAnswer → Type 0
Honest need [] = Unit {0}
Honest need (RecvAnswer.received bytes ∷ answers) =
    (0 < need → (length bytes ≤ at_most_buffer need) × (0 < length bytes))
    × Honest (need - length bytes) answers
Honest need (RecvAnswer.failed e ∷ answers) = 0 < need → ⊥

-- The bytes that the answers carry.
abbrev pub arrived : List RecvAnswer → Bytes
arrived [] = []
arrived (RecvAnswer.received bytes ∷ answers) = bytes ++ arrived answers
arrived (RecvAnswer.failed e ∷ answers) = arrived answers

-- The run has taken `k` of the bytes on the wire, and left the others.
abbrev pub Takes : Bytes → ℕ → List RecvAnswer → Net → RecvRun → Type 0
Takes text k answers net r =
    (io : SocketIo) × (rest : List RecvAnswer) × (r
      ≡ returned true (text ++ take k (arrived answers)) io net rest)
    × (arrived rest ≡ drop k (arrived answers))

take-append-add :
    (xs ys : Bytes) (k n : ℕ) → length xs + n ≡ k → xs ++ take n ys ≡ take k (xs ++ ys)
take-append-add [] ys k n h = let e : n ≡ k = omega arith in ap (λ (t : ℕ). take t ys) e
take-append-add (x ∷ xs) ys zero n h = absurd (omega arith)
take-append-add (x ∷ xs) ys (suc k) n h = ap (◌∷◌ x) (take-append-add xs ys k n (omega arith))

drop-append-add : (xs ys : Bytes) (k n : ℕ) → length xs + n ≡ k → drop n ys ≡ drop k (xs ++ ys)
drop-append-add [] ys k n h = let e : n ≡ k = omega arith in ap (λ (t : ℕ). drop t ys) e
drop-append-add (x ∷ xs) ys zero n h = absurd (omega arith)
drop-append-add (x ∷ xs) ys (suc k) n h = drop-append-add xs ys k n (omega arith)

Takes-none :
    (text : Bytes) (io : SocketIo) (net : Net) (answers : List RecvAnswer) (k : ℕ)
    → k ≡ 0
    → Takes text k answers net (returned true text io net answers)
Takes-none text io net answers zero e = (io, answers, rw append-nil, refl)
Takes-none text io net answers (suc k) e = absurd (omega arith)

Takes-step :
    (text bytes : Bytes) (k n : ℕ) (answers : List RecvAnswer) (net : Net) (r : RecvRun)
    → length bytes + n ≡ k
    → Takes (text ++ bytes) n answers net r
    → Takes text k (RecvAnswer.received bytes ∷ answers) net r
Takes-step text bytes k n answers net r e (io, rest, run, left) = (
  io,
  rest,
  rw (← take-append-add bytes (arrived answers) k n e, run, append_assoc),
  left ∙ drop-append-add bytes (arrived answers) k n e,
)

pub recv_loop_done :
    (text : Bytes) (answers : List RecvAnswer) (io : SocketIo) (net : Net)
    → io.read_total_bytes ≤ io.read_cursor
    → recv_loop text answers io net ≡ returned true text io net answers
unfolding recv_loop
recv_loop_done text [] io net h = ground arith
recv_loop_done text (RecvAnswer.received bytes ∷ answers) io net h = ground arith
recv_loop_done text (RecvAnswer.failed e ∷ answers) io net h = ground arith

-- One round of the loop.
pub recv_loop_received :
    (text bytes : Bytes) (answers : List RecvAnswer) (io : SocketIo) (net : Net)
    → io.read_cursor < io.read_total_bytes
    → 0 < length bytes
    → recv_loop text (RecvAnswer.received bytes ∷ answers) io net
      ≡ recv_loop (text ++ bytes) answers (advance_read io (length bytes)) net
unfolding recv_loop
recv_loop_received text bytes answers io net h pos = ground arith

recv_loop-Takes_done :
    (text : Bytes) (answers : List RecvAnswer) (io : SocketIo) (net : Net)
    → io.read_total_bytes ≤ io.read_cursor
    → Takes text (need_to_read io) answers net (recv_loop text answers io net)
recv_loop-Takes_done text answers io net h =
    rw (recv_loop_done text answers io net h)
      (Takes-none text io net answers (need_to_read io) (omega arith))

recv_loop-Takes :
    (text : Bytes) (answers : List RecvAnswer) (io : SocketIo) (net : Net)
    → io.read_cursor ≤ io.read_total_bytes
    → io.read_total_bytes < size_t_mod
    → Honest (need_to_read io) answers
    → need_to_read io ≤ length (arrived answers)
    → Takes text (need_to_read io) answers net (recv_loop text answers io net)
recv_loop-Takes text [] io net h w honest enough = recv_loop-Takes_done text [] io net (omega arith)
recv_loop-Takes text (RecvAnswer.failed e ∷ answers) io net h w honest enough =
    elim (Bool-cases (ltb io.read_cursor io.read_total_bytes)) [
      | inl more ↦ absurd (honest (ground arith))
      | inr done ↦ recv_loop-Takes_done text (RecvAnswer.failed e ∷ answers) io net (ground arith)
    ]
recv_loop-Takes text (RecvAnswer.received bytes ∷ answers) io net h w honest enough =
    elim (Bool-cases (ltb io.read_cursor io.read_total_bytes)) [
      | inr done ↦
          recv_loop-Takes_done text (RecvAnswer.received bytes ∷ answers) io net (ground arith)
      | inl more ↦
          let open_ : io.read_cursor < io.read_total_bytes = ground arith in
          let fits = honest.0 (omega arith) in
          let io' = advance_read io (length bytes) in
          let bound = at_most_buffer-le (need_to_read io) in
          let moved : io'.read_cursor ≡ io.read_cursor + length bytes = omega arith in
          let left : need_to_read io' ≡ need_to_read io - length bytes = omega arith in
          let total = length-append bytes (arrived answers) in
          rw (recv_loop_received text bytes answers io net open_ fits.1) (
            Takes-step text bytes (need_to_read io) (need_to_read io') answers net
              (recv_loop (text ++ bytes) answers io' net) (omega arith)
              (recv_loop-Takes (text ++ bytes) answers io' net (omega arith) w (rw left honest.1)
                (omega arith)))
    ]

latch-Takes :
    (text : Bytes) (k : ℕ) (answers : List RecvAnswer) (net : Net) (r : RecvRun)
    → Takes text k answers net r
    → (io : SocketIo) × (rest : List RecvAnswer) × (latch r
        ≡ returned true (text ++ take k (arrived answers)) io net rest)
      × (arrived rest ≡ drop k (arrived answers))
      × (io.already ≡ true)
latch-Takes text k answers net r (io, rest, run, left) =
    (record io { already = true }, rest, ap latch run, left, refl)

recv_fresh :
    (text : Bytes) (size : ℕ) (answers : List RecvAnswer) (io : SocketIo) (net : Net)
    → io.already ≡ true
    → 0 < size
    → recv text size answers io net ≡ latch (recv_loop text answers (start_read io size) net)
unfolding recv
recv_fresh text size answers io net a pos = ground arith

pub recv_loop_completes :
    (text : Bytes) (size : ℕ) (answers : List RecvAnswer) (io : SocketIo) (net : Net)
    → size < size_t_mod
    → Honest size answers
    → size ≤ length (arrived answers)
    → (io' : SocketIo) × (rest : List RecvAnswer) × (latch
          (recv_loop text answers (start_read io size) net)
        ≡ returned true (text ++ take size (arrived answers)) io' net rest)
      × (arrived rest ≡ drop size (arrived answers))
      × (io'.already ≡ true)
recv_loop_completes text size answers io net w honest enough =
    let whole : size - 0 ≡ size = omega arith in
    let io' = start_read io size in
    let honest' : Honest (size - 0) answers = rw whole honest in
    latch-Takes text size answers net (recv_loop text answers io' net) (
      subst (λ k. Takes text k answers net (recv_loop text answers io' net)) whole
        (recv_loop-Takes text answers io' net (omega arith) w honest' (omega arith)))

-- However the kernel cuts the stream, `recv` returns true with exactly the next `size` bytes behind
-- what `data` held, and leaves the others to be read, if no call fails before they have arrived.
pub recv_completes :
    (text : Bytes) (size : ℕ) (answers : List RecvAnswer) (io : SocketIo) (net : Net)
    → io.already ≡ true
    → 0 < size
    → size < size_t_mod
    → Honest size answers
    → size ≤ length (arrived answers)
    → (io' : SocketIo) × (rest : List RecvAnswer) × (recv text size answers io net
        ≡ returned true (text ++ take size (arrived answers)) io' net rest)
      × (arrived rest ≡ drop size (arrived answers))
      × (io'.already ≡ true)
recv_completes text size answers io net a pos w honest enough =
    rw (recv_fresh text size answers io net a pos)
      (recv_loop_completes text size answers io net w honest enough)
