-- ===== src/Http/ContentLength/Waiting.antt =====
-- The loop of `process_in` in http/http_conn.h over the body of a request, when the peer sends the rest
-- and when it closes.
use conv_event.Base.{
  take, drop, length-take, ltb-false, ℕ, zero, suc, ◌-◌, ◌≤◌, ◌<◌, ◌≡◌, refl, ap, ◌∙◌, true, false,
  List, [], ◌∷◌, ◌++◌, length-append, arith, Bytes, length, ltb, leb, if◌then◌else◌, Bool-cases,
  inl, inr,
}
use conv_event.Http.ContentLength.{BodyRun, complete, incomplete, next_round, read_body}
use conv_event.Socket.Receiving.{
  RecvRun, returned, waiting, recv, recv_base, recv_loop, latch, start_read,
}
use conv_event.Socket.Reception.{Honest, arrived, recv_completes}
use conv_event.Socket.State.{SocketIo, Net, RecvAnswer, size_t_mod}

-- The peer has closed: each call reads no byte.
abbrev pub AllClosed : List RecvAnswer → Type 0
AllClosed [] = Unit {0}
AllClosed (RecvAnswer.received [] ∷ answers) = AllClosed answers
AllClosed (RecvAnswer.received (b ∷ bytes) ∷ answers) = ⊥
AllClosed (RecvAnswer.failed e ∷ answers) = ⊥

-- A call that leaves the text as it was, or waits.
abbrev Unchanged : Bytes → RecvRun → Type 0
Unchanged text (returned b text' io net answers) = (text' ≡ text) × AllClosed answers
Unchanged text (waiting text' io net) = Unit {0}

recv_loop-Unchanged :
    (text : Bytes) (answers : List RecvAnswer) (io : SocketIo) (net : Net)
    → AllClosed answers
    → Unchanged text (latch (recv_loop text answers io net))
unfolding recv_loop
recv_loop-Unchanged text [] io net h = elim (Bool-cases (ltb io.read_cursor io.read_total_bytes)) [
  | inl more ↦ rw more tt
  | inr done ↦ rw done (refl, tt)
]
recv_loop-Unchanged text (RecvAnswer.received [] ∷ answers) io net h =
    elim (Bool-cases (ltb io.read_cursor io.read_total_bytes)) [
      | inl more ↦ rw more (refl, h)
      | inr done ↦ rw done (refl, h)
    ]
recv_loop-Unchanged text (RecvAnswer.received (b ∷ bytes) ∷ answers) io net h = absurd h
recv_loop-Unchanged text (RecvAnswer.failed e ∷ answers) io net h = absurd h

recv-Unchanged :
    (text : Bytes) (size : ℕ) (answers : List RecvAnswer) (io : SocketIo) (net : Net)
    → AllClosed answers
    → Unchanged text (recv text size answers io net)
unfolding recv recv_base
recv-Unchanged text size answers io net h =
    let io' = if io.already then start_read io size else io in
    elim (Bool-cases (leb io'.read_total_bytes 0)) [
      | inl empty ↦ rw empty (refl, h)
      | inr more ↦ rw more (recv_loop-Unchanged text answers io' net h)
    ]

next_round-incomplete :
    (k : Bytes → List RecvAnswer → SocketIo → Net → BodyRun) (body : Bytes) (r : RecvRun)
    → ((answers : List RecvAnswer) (io : SocketIo) (net : Net)
        → AllClosed answers
        → k body answers io net ≡ incomplete)
    → Unchanged body r
    → next_round k r ≡ incomplete
next_round-incomplete k body (returned b body' io net answers) h (e, closed) =
    ap (λ t. k t answers io net) e ∙ h answers io net closed
next_round-incomplete k body (waiting body' io net) h u = refl

-- Where a peer closes before it has sent the length that it announced, the loop over the body does not
-- end, whatever number of rounds and of calls it is given.
pub read_body_closed :
    (fuel total : ℕ) (body : Bytes) (answers : List RecvAnswer) (io : SocketIo) (net : Net)
    → length body < total
    → AllClosed answers
    → read_body fuel total body answers io net ≡ incomplete
unfolding read_body
read_body_closed zero total body answers io net h closed = refl
read_body_closed (suc fuel) total body answers io net h closed =
    let short : ltb (length body) total ≡ true = ground arith in
    rw short (
      next_round-incomplete (read_body fuel total) body
        (recv body (total - length body) answers io net)
        (λ answers' io' net' closed'. read_body_closed fuel total body answers' io' net' h closed')
        (recv-Unchanged body (total - length body) answers io net closed))

-- A peer that sends the length it announced, no call failing before: the second round finds the
-- body complete, with the missing bytes of the stream behind what had come before, and the rest of
-- the stream is left. No message is being received.
pub read_body_completes :
    (fuel total : ℕ) (body : Bytes) (answers : List RecvAnswer) (io : SocketIo) (net : Net)
    → io.already ≡ true
    → length body < total
    → total < size_t_mod
    → Honest (total - length body) answers
    → total - length body ≤ length (arrived answers)
    → (io' : SocketIo) × (rest : List RecvAnswer) × (read_body
          (suc (suc fuel))
          total
          body
          answers
          io
          net
        ≡ complete (body ++ take (total - length body) (arrived answers)) io' net rest)
      × (arrived rest ≡ drop (total - length body) (arrived answers))
unfolding read_body
read_body_completes fuel total body answers io net a short w honest enough =
    let missing = total - length body in
    let text = body ++ take missing (arrived answers) in
    let (io', rest, run, left, _) =
      recv_completes body missing answers io net a (omega arith) (omega arith) honest enough in
    let first : ltb (length body) total ≡ true = ground arith in
    let whole : length text ≡ total = omega (
      arith,
      length-append body (take missing (arrived answers)),
      length-take missing (arrived answers),
    ) in
    let last : ltb (length text) total ≡ false = ltb-false (length text) total (omega arith) in
    (io', rest, rw (first, run, last), left)
