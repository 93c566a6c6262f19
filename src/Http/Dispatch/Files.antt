-- ===== src/Http/Dispatch/Files.antt =====
-- How `process_get` of http/http_conn.h sends a file. Each system call takes what it is handed.
use conv_event.Base.{
  ℕ, suc, ◌+◌, ◌-◌, ◌%◌, ◌≡◌, refl, ap, ◌∙◌, ◌≤◌, ◌<◌, Bool, true, false, List, [], ◌∷◌, ◌++◌,
  append_assoc, none, some, arith, Bytes, length, take, take-all, ltb, ◌==◌, lookup,
}
use conv_event.Http.Dispatch.{
  Site, load_file, load_found, load_opened, by_mode, opened, load_opening, start_body, send_loaded,
  without_router, prepare, process_out,
}
use conv_event.Http.Dispatch.Serving.{Puts-same, process_out_free}
use conv_event.Http.Filters.{match_filter}
use conv_event.Http.Reply.{
  ◌>>=◌, finish, send_response_body, send_response_body_base, send_body_of, file_answered,
  base_answered, body_sent, next_in, http_1_0_close,
}
use conv_event.Http.Reply.Pages.{Puts, headed, header_once, http_1_0_close-same}
use conv_event.Http.Reply.Whole.{taking, taken}
use conv_event.Http.Response.{
  HttpConn, World, Stat, to_string, status_page, set_status, set_response_header, build_body_text,
  clear_out,
}
use conv_event.Http.Status.{forbidden}
use conv_event.Http.Words.{get}
use conv_event.Socket.State.{SocketIo, Net, SendAnswer, buffer_size, size_t_mod, size_max}
use conv_event.Socket.Sending.{returned, sendfile_loop, close_file, advance, start_write}

sendfile_end :
    (content : Bytes) (answers : List SendAnswer) (io : SocketIo) (net : Net)
    → io.write_total_bytes ≤ io.write_cursor
    → sendfile_loop content answers io net ≡ returned true io (close_file net) answers
unfolding sendfile_loop
sendfile_end content [] io net h = ground arith
sendfile_end content (a ∷ answers) io net h = ground arith

-- sendfile with the whole file in one call.
sendfile_once :
    (content : Bytes) (n : ℕ) (rest : List SendAnswer) (io : SocketIo) (net : Net)
    → length content ≡ n
    → 0 < n
    → n < size_max
    → sendfile_loop content (SendAnswer.sent n ∷ rest) (start_write io n) net
      ≡ returned true
          (advance (start_write io n) n)
          (close_file (record net { wire = net.wire ++ content }))
          rest
unfolding sendfile_loop
sendfile_once content n rest io net e pos small =
    let more : ltb 0 n ≡ true = ground arith in
    let count : (n == size_max) ≡ false = ground arith in
    let moved : (0 + n) % size_t_mod ≡ n = omega arith in
    let all : take n (take (n - 0) content) ≡ content =
      let whole : n - 0 ≡ n = omega arith in
      rw (whole, take-all n content (omega arith), take-all n content (omega arith)) in
    rw (more, count)
      (sendfile_end content rest (advance (start_write io n) n)
          (record net { wire = net.wire ++ take n (take (n - 0) content) }) (omega arith)
        ∙ rw all)

-- The world after the body is sent from a file.
abbrev file_taken : Bytes → List SendAnswer → World → World
file_taken content rest w = record w {
  answers = rest;
  net = close_file (record w.net { wire = w.net.wire ++ content });
}

file_body_once :
    (fuel : ℕ) (content : Bytes) (rest : List SendAnswer) (c : HttpConn) (w : World)
    → c.res_body.file_fd ≡ some content
    → c.res_body.file_stat.st_size ≡ length content
    → 0 < length content
    → length content < size_max
    → (c' : HttpConn) × (send_response_body (suc fuel) (start_body c) (taking content rest w)
        ≡ some (true, c', next_in c (file_taken content rest w)))
unfolding send_response_body send_response_body_base send_body_of body_sent next_in
file_body_once fuel content rest c w file size pos small =
    let n = length content in
    let w' = taking content rest w in
    let c1 = record c { io = start_write c.io n } in
    let again = send_response_body fuel in
    (
      _,
      ap
            (λ k.
              base_answered again
                (send_body_of c.res_body.file_fd (record c { io = start_write c.io k }) w'))
            size
          ∙ ap (λ f. base_answered again (send_body_of f c1 w')) file
          ∙ ap (λ r. base_answered again (file_answered c1 w' r))
              (sendfile_once content n rest c.io w.net refl pos small),
    )

send_loaded-Puts :
    (fuel : ℕ) (content : Bytes) (rest : List SendAnswer) (c : HttpConn) (w : World)
    → c.res_body.file_fd ≡ some content
    → c.res_body.file_stat.st_size ≡ length content
    → 0 < length content
    → length content < size_max
    → c.io.already ≡ true
    → length (to_string c.res_header) ≤ buffer_size
    → Puts (to_string c.res_header ++ content) rest w (
        send_loaded
          (suc fuel)
          c
          (taking (to_string c.res_header) (SendAnswer.sent (length content) ∷ rest) w))
unfolding send_loaded next_in
send_loaded-Puts fuel content rest c w file size pos small a fits =
    let text = to_string c.res_header in
    let w1 = taken text (SendAnswer.sent (length content) ∷ rest) w in
    let w2 = next_in (headed c) (file_taken content rest w1) in
    let (c2, run) = file_body_once fuel content rest (headed c) w1 file size pos small in
    let same = http_1_0_close-same c2 w2 in
    (
      (http_1_0_close c2 w2).0,
      (http_1_0_close c2 w2).1,
      ap (λ r. r >>= (λ c' w'. send_response_body (suc fuel) (start_body c') w') >>= finish)
            (header_once fuel (SendAnswer.sent (length content) ∷ rest) c w a fits)
          ∙ ap (λ r. r >>= finish) run,
      ap (λ (n : Net). n.wire) same.0 ∙ append_assoc w.net.wire text content,
      same.1,
    )

-- Every branch of `load_file` keeps the file open and the connection's cursors.
abbrev Keeps : HttpConn → HttpConn → Type 0
Keeps c c' =
    (c'.res_body.file_fd ≡ c.res_body.file_fd)
    × (c'.res_body.file_stat ≡ c.res_body.file_stat)
    × (c'.io ≡ c.io)

by_mode-Keeps :
    (r d : Bool) (name : Bytes) (types : List (Bytes × Bytes)) (size : ℕ) (c : HttpConn)
    → Keeps c (by_mode r d name types size c)
unfolding by_mode status_page build_body_text set_status set_response_header
by_mode-Keeps false d name types size c = (refl, refl, refl)
by_mode-Keeps true true name types size c = (refl, refl, refl)
by_mode-Keeps true false name types size c = (refl, refl, refl)

by_mode-forbidden :
    (r d : Bool) (name : Bytes) (types : List (Bytes × Bytes)) (size : ℕ) (c : HttpConn)
    → r ≡ false
    → (by_mode r d name types size c).res_header.status ≡ forbidden
unfolding by_mode status_page build_body_text set_status set_response_header
by_mode-forbidden r d name types size c e = rw e

-- A GET for a url without a filter and without a router, whose file opens, is not empty and has the
-- size that `fstat` tells, puts the response header and the whole file on the wire; the status is
-- Forbidden if others may not read the file, and its content is sent all the same. No message is on
-- its way, the header fits the write buffer, and the system calls take header and file each whole.
pub process_out_file :
    (fuel : ℕ) (site : Site) (content : Bytes) (stat : Stat) (rest : List SendAnswer) (c : HttpConn)
    (w : World)
    → match_filter c.req_header.url site.filters ≡ none
    → lookup c.req_header.url site.routers ≡ none
    → c.req_header.method ≡ get
    → site.open_file (site.base_path ++ c.req_header.url) ≡ some (content, stat)
    → stat.st_size ≡ length content
    → 0 < length content
    → length content < size_max
    → c.io.already ≡ true
    → length (to_string (load_file site w.types (prepare c)).res_header) ≤ buffer_size
    → let header = to_string (load_file site w.types (prepare c)).res_header in
      Puts
        (header ++ content)
        rest
        w
        (process_out (suc fuel) site c (taking header (SendAnswer.sent (length content) ∷ rest) w))
      × (stat.others_read ≡ false
          → (load_file site w.types (prepare c)).res_header.status ≡ forbidden)
unfolding load_file load_found load_opened load_opening opened without_router clear_out
process_out_file fuel site content stat rest c w free missing is_get found size pos small a fits =
    let name = site.base_path ++ c.req_header.url in
    let c0 = record (prepare c) { res_body = record (prepare c).res_body { file_name = name } } in
    let c1 = record c0 {
      res_body = record c0.res_body { file_fd = some content; file_stat = stat };
    } in
    let page = load_opened name w.types content stat c0 in
    let same : load_file site w.types (prepare c) ≡ page =
      ap (λ o. load_found name w.types o c0) found in
    let kept = by_mode-Keeps stat.others_read stat.is_directory name w.types stat.st_size c1 in
    let header = to_string (load_file site w.types (prepare c)).res_header in
    let w' = taking header (SendAnswer.sent (length content) ∷ rest) w in
    let w1 = opened name (some (content, stat)) w in
    (
      Puts-same (header ++ content) rest w (process_out (suc fuel) site c w')
          (send_loaded (suc fuel) (load_file site w.types (prepare c))
            (opened name (some (content, stat)) w'))
          (process_out_free (suc fuel) site c w' free missing
            ∙ ap (λ m. without_router (suc fuel) site m (prepare c) w') is_get
            ∙ ap
                (λ o.
                  send_loaded (suc fuel) (load_file site w.types (prepare c)) (opened name o w'))
                found)
          (send_loaded-Puts fuel content rest (load_file site w.types (prepare c)) w1
            (ap (λ (l : HttpConn). l.res_body.file_fd) same ∙ kept.0)
            (ap (λ (l : HttpConn). l.res_body.file_stat.st_size) same
              ∙ ap (λ (s : Stat). s.st_size) kept.1
              ∙ size)
            pos small
            (ap (λ (l : HttpConn). l.io.already) same ∙ ap (λ (i : SocketIo). i.already) kept.2 ∙ a)
            fits),
      λ e.
          ap (λ (l : HttpConn). l.res_header.status) same
          ∙ by_mode-forbidden stat.others_read stat.is_directory name w.types stat.st_size c1 e,
    )
