-- ===== src/Single/Settings/Held.antt =====
-- The descriptors that `wait` of conv_single (core/conv_single.h) opens or closes before its loop.
use conv_event.Conn.State
use conv_event.Single.Server.{Server}
use conv_event.Base.{
  ℕ, ◌≡◌, refl, ap, sym, ◌∙◌, Bool, true, false, List, [], ◌∷◌, ◌++◌, append-nil, none, some,
  if◌then◌else◌, is_nonneg,
}
use conv_event.Conn.State.{
  Call, set_nonblocking, epoll_ctl_add, epoll_ctl_mod, epoll_ctl_del, close_fd, epoll_add,
}
use conv_event.Single.Loop
use conv_event.Single.Loop.{close_listed}
use conv_event.Single.Startup.{
  Single, System, close, check, create_socket, make_events, make_epoll, prepare_epoll_event, bind,
  listen, register_listen_fd, start,
}
use conv_event.Start.{Start, running, exited, thrown, ◌>>=◌}
use conv_event.Socket.State.{Fd, fd, no_fd}

-- The descriptors that the calls close.
unfoldable pub closed_fds : List Call → List ℕ
closed_fds [] = []
closed_fds (set_nonblocking f ∷ calls) = closed_fds calls
closed_fds (epoll_ctl_add e f events ∷ calls) = closed_fds calls
closed_fds (epoll_ctl_mod e f events ∷ calls) = closed_fds calls
closed_fds (epoll_ctl_del e f ∷ calls) = closed_fds calls
closed_fds (close_fd (fd n) ∷ calls) = n ∷ closed_fds calls
closed_fds (close_fd no_fd ∷ calls) = closed_fds calls

closed_fds-append : (xs ys : List Call) → closed_fds (xs ++ ys) ≡ closed_fds xs ++ closed_fds ys
unfolding closed_fds
closed_fds-append [] ys = refl
closed_fds-append (set_nonblocking f ∷ calls) ys = closed_fds-append calls ys
closed_fds-append (epoll_ctl_add e f events ∷ calls) ys = closed_fds-append calls ys
closed_fds-append (epoll_ctl_mod e f events ∷ calls) ys = closed_fds-append calls ys
closed_fds-append (epoll_ctl_del e f ∷ calls) ys = closed_fds-append calls ys
closed_fds-append (close_fd (fd n) ∷ calls) ys = ap (◌∷◌ n) (closed_fds-append calls ys)
closed_fds-append (close_fd no_fd ∷ calls) ys = closed_fds-append calls ys

abbrev pub held_fd : Fd → List ℕ
held_fd no_fd = []
held_fd (fd n) = n ∷ []

-- What was opened is held by the members, and nothing is closed.
pub record Held (s : Single) : Type 0 where
  pub held : held_fd s.server.socket_fd ++ held_fd s.server.epoll_fd ≡ s.opened
  pub open_yet : closed_fds s.server.shared.calls ≡ []

pub record Unopened (s : Single) : Type 0 where
  pub no_socket : s.server.socket_fd ≡ no_fd
  pub no_epoll : s.server.epoll_fd ≡ no_fd
  pub none_opened : s.opened ≡ []
  pub open_yet : closed_fds s.server.shared.calls ≡ []

abbrev pub AllClosed : Single → Type 0
AllClosed s = closed_fds s.server.shared.calls ≡ s.opened

-- `P` if the program goes on; no descriptor is left open if it ends.
abbrev pub Ends : (Single → Type 0) → Start Single → Type 0
Ends P (running s) = P s
Ends P (exited s) = AllClosed s
Ends P thrown = Unit {0}

pub Ends-bind :
    (P Q : Single → Type 0) (r : Start Single) (f : Single → Start Single)
    → Ends P r
    → ((s : Single) → P s → Ends Q (f s))
    → Ends Q (r >>= f)
Ends-bind P Q (running s) f h g = g s h
Ends-bind P Q (exited s) f h g = h
Ends-bind P Q thrown f h g = tt

close_listed-closed :
    (f : Fd) (s : Server)
    → closed_fds (close_listed f s).shared.calls ≡ closed_fds s.shared.calls ++ held_fd f
unfolding close_listed closed_fds
close_listed-closed no_fd s = sym (append-nil _)
close_listed-closed (fd n) s = closed_fds-append s.shared.calls (close_fd (fd n) ∷ [])

close-AllClosed : (s : Single) → Held s → AllClosed (close s)
unfolding close Loop.close
close-AllClosed s h =
    close_listed-closed s.server.epoll_fd (close_listed s.server.socket_fd s.server)
    ∙ ap (λ l. l ++ held_fd s.server.epoll_fd) (close_listed-closed s.server.socket_fd s.server)
    ∙ ap (λ l. (l ++ held_fd s.server.socket_fd) ++ held_fd s.server.epoll_fd) h.open_yet
    ∙ h.held

-- Before a descriptor is open there is nothing to close.
Unopened-Held : (s : Single) → Unopened s → Held s
Unopened-Held s h = record {
  held =
      ap (λ f. held_fd f ++ held_fd s.server.epoll_fd) h.no_socket
      ∙ ap held_fd h.no_epoll
      ∙ sym h.none_opened;
  open_yet = h.open_yet;
}

pub Unopened-AllClosed : (s : Single) → Unopened s → AllClosed s
Unopened-AllClosed s h = h.open_yet ∙ sym h.none_opened

check-Ends : (ok : Bool) (s : Single) → Held s → Ends Held (check ok s)
unfolding check
check-Ends true s h = h
check-Ends false s h = close-AllClosed s h

pub create_socket-Ends : (os : System) (s : Single) → Unopened s → Ends Held (create_socket os s)
unfolding create_socket
create_socket-Ends os s h =
    elim os.socket
      as (λ o. Ends Held (elim o [
        | none ↦ exited (close s)
        | some n ↦ running (record s {
          server = record s.server { socket_fd = fd n };
          opened = s.opened ++ (n ∷ []);
        })
      ])) [
        | none ↦ close-AllClosed s (Unopened-Held s h)
        | some n ↦ record {
          held = ap (λ f. n ∷ held_fd f) h.no_epoll ∙ sym (ap (λ l. l ++ (n ∷ [])) h.none_opened);
          open_yet = h.open_yet;
        }
      ]

make_epoll-Ends :
    (f : Fd) (os : System) (s : Single)
    → s.server.epoll_fd ≡ f
    → Held s
    → Ends Held (make_epoll f os s)
unfolding make_epoll
make_epoll-Ends (fd n) os s e h = h
make_epoll-Ends no_fd os s e h =
    elim os.epoll_create
      as (λ o. Ends Held (elim o [
        | none ↦ exited (close s)
        | some n ↦ running (record s {
          server = record s.server { epoll_fd = fd n };
          opened = s.opened ++ (n ∷ []);
        })
      ])) [
        | none ↦ close-AllClosed s h
        | some n ↦ record {
          held =
              ap (λ l. l ++ (n ∷ []))
                (sym (append-nil (held_fd s.server.socket_fd))
                  ∙ ap (λ g. held_fd s.server.socket_fd ++ held_fd g) (sym e)
                  ∙ h.held);
          open_yet = h.open_yet;
        }
      ]

pub if-Ends :
    (b : Bool) (P : Single → Type 0) (x y : Start Single)
    → Ends P x
    → Ends P y
    → Ends P (if b then x else y)
if-Ends true P x y h h' = h
if-Ends false P x y h h' = h'

make_events-Ends : (s : Single) → Held s → Ends Held (make_events s)
unfolding make_events
make_events-Ends s h = if-Ends s.events Held (running s) _ h (
    if-Ends (is_nonneg s.max_events_count) Held (running (record s { events = true })) thrown
      (record { held = h.held; open_yet = h.open_yet }) tt)

prepare_epoll_event-Ends :
    (os : System) (s : Single) → Held s → Ends Held (prepare_epoll_event os s)
unfolding prepare_epoll_event
prepare_epoll_event-Ends os s h =
    Ends-bind Held Held (make_events s) (λ s'. make_epoll s'.server.epoll_fd os s')
      (make_events-Ends s h) (λ s' h'. make_epoll-Ends s'.server.epoll_fd os s' refl h')

register_listen_fd-Ends : (os : System) (s : Single) → Held s → Ends Held (register_listen_fd os s)
unfolding register_listen_fd State.epoll_add closed_fds
register_listen_fd-Ends os s h = check-Ends os.epoll_ctl _ (record {
  held = h.held;
  open_yet = closed_fds-append s.server.shared.calls _ ∙ ap (λ l. l ++ []) h.open_yet;
})

pub start-Ends : (os : System) (s : Single) → Held s → Ends Held (start os s)
unfolding start bind listen
start-Ends os s h = Ends-bind Held Held (bind os s) _ (check-Ends os.bind s h) (λ s1 h1.
    Ends-bind Held Held (prepare_epoll_event os s1) _ (prepare_epoll_event-Ends os s1 h1) (λ s2 h2.
      Ends-bind Held Held (listen os s2) (register_listen_fd os) (check-Ends os.listen s2 h2)
        (register_listen_fd-Ends os)))
