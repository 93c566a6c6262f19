-- ===== src/Single/Safety.antt =====
-- Why the loop of core/conv_single.h reads no null pointer.
use conv_event.Base.{
  ℕ, ◌≡◌, refl, ◌∙◌, ◌⊎◌, Bool, inl, inr, true, false, List, [], ◌∷◌, Option, none, some, arith,
  leb, if◌then◌else◌, Bool-cases,
}
use conv_event.Conn.State.{Methods, Status, rdhup, error, out, in_, process}
use conv_event.Memory.{ConnPool, store}
use conv_event.Single.Loop.{Event, handle, handle_all, drain, close_one, with_queue, ◌>>=◌}
use conv_event.Single.Server.{
  Server, give_back, remove_at, remove_fd, enter, refuse, accept_pooled, accept_conn, run_process,
  after_process, after_add, hand_to, dispatch_at, dispatch,
}
use conv_event.Socket.State.{Fd, fd, no_fd}
use conv_event.Table.{Table, fd_eq, at, put, at-put, at-touch, at-erase_ne, fd_eq→eq}
use conv_event.ThreadPool.Pool
use conv_event.ThreadPool.Pool.{ThreadPool}

-- The listening socket is the same, and a connection other than that of `f` is where it was.
abbrev pub Keeps : Fd → Server → Server → Type 0
Keeps f s s' =
    (s'.socket_fd ≡ s.socket_fd)
    × ((g : Fd) (p : ℕ) → fd_eq g f ≡ false → at g s.connects ≡ some p → at g s'.connects ≡ some p)

-- There is a result, and it has the property.
abbrev pub Runs : (Server → Type 0) → Option Server → Type 0
Runs P none = ⊥
Runs P (some s) = P s

Keeps-give_back :
    (pool : Option ConnPool) (p : ℕ) (f : Fd) (s s' : Server)
    → Keeps f s s'
    → Keeps f s (give_back pool p s')
unfolding give_back
Keeps-give_back none p f s s' k = k
Keeps-give_back (some pool) p f s s' k = k

remove_at-Runs :
    (o : Option ℕ) (q : ℕ) (f : Fd) (s : Server) → o ≡ some q → Runs (Keeps f s) (remove_at o f s)
unfolding remove_at
remove_at-Runs none q f s e = cc
remove_at-Runs (some p) q f s e =
    Keeps-give_back s.conn_pool p f s _ (refl, λ g r ne h. at-erase_ne f g s.connects ne ∙ h)

pub remove_fd-Runs :
    (q : ℕ) (f : Fd) (s : Server) → at f s.connects ≡ some q → Runs (Keeps f s) (remove_fd f s)
unfolding remove_fd
remove_fd-Runs q f s e = remove_at-Runs (at f s.connects) q f s e

-- Entering a pointer under a key that has none changes no other connection.
pub at-put_fresh :
    (f g : Fd) (p q : ℕ) (t : Table)
    → at f t ≡ none
    → at g t ≡ some q
    → at g (put f (some p) t) ≡ some q
at-put_fresh f g p q t e h = ground (arith, at-put f g (some p) t, fd_eq→eq g f)

accept_pooled-Keeps :
    (pool : Option ConnPool) (o : Option ℕ) (f l : Fd) (addr : ℕ) (s : Server)
    → at f s.connects ≡ o
    → Keeps l s (accept_pooled pool o f addr s)
unfolding accept_pooled enter refuse
accept_pooled-Keeps (some pool) (some q) f l addr s e =
    (refl, λ g p ne h. at-touch f g s.connects ∙ h)
accept_pooled-Keeps (some pool) none f l addr s e =
    (refl, λ g p ne h. at-put_fresh f g _ p s.connects e h)
accept_pooled-Keeps none (some q) f l addr s e = (refl, λ g p ne h. at-touch f g s.connects ∙ h)
accept_pooled-Keeps none none f l addr s e = (refl, λ g p ne h. at-put_fresh f g _ p s.connects e h)

accept_conn-Keeps : (f l : Fd) (addr : ℕ) (s : Server) → Keeps l s (accept_conn f addr s)
unfolding accept_conn
accept_conn-Keeps f l addr s = elim (Bool-cases (leb s.max_connect_count s.current_connect_count)) [
  | inl full ↦ rw full (refl, λ g p ne h. h)
  | inr room ↦ rw room (accept_pooled-Keeps s.conn_pool (at f s.connects) f l addr s refl)
]

after_process-Runs :
    (always b : Bool) (q : ℕ) (f : Fd) (s : Server)
    → at f s.connects ≡ some q
    → Runs (Keeps f s) (after_process always f (b, s))
unfolding after_process
after_process-Runs true b q f s e = remove_fd-Runs q f s e
after_process-Runs false true q f s e = (refl, λ g p ne h. h)
after_process-Runs false false q f s e = remove_fd-Runs q f s e

after_add-Runs :
    (old pool : ThreadPool) (b : Bool) (q : ℕ) (f : Fd) (s : Server)
    → at f s.connects ≡ some q
    → Runs (Keeps f s) (after_add old f s (b, pool))
unfolding after_add
after_add-Runs old pool true q f s e = (refl, λ g p ne h. h)
after_add-Runs old pool false q f s e = remove_fd-Runs q f (record s { thread_pool = some pool }) e

hand_to-Runs :
    (pool : Option ThreadPool) (m : Methods) (always : Bool) (p q : ℕ) (f : Fd) (s : Server)
    → at f s.connects ≡ some q
    → Runs (Keeps f s) (hand_to pool m always p f s)
unfolding hand_to run_process
hand_to-Runs (some pool) m always p q f s e =
    let (b, pool') = Pool.add pool p in after_add-Runs pool pool' b q f s e
hand_to-Runs none m always p q f s e =
    let (b, c, shared) = process m (s.memory.conns p) s.shared in
    after_process-Runs always b q f (record s { memory = store s.memory p c; shared = shared }) e

dispatch_at-Runs :
    (o : Option ℕ) (m : Methods) (status : Status) (always : Bool) (q : ℕ) (f : Fd) (s : Server)
    → at f s.connects ≡ o
    → o ≡ some q
    → Runs (Keeps f s) (dispatch_at o m status always f s)
unfolding dispatch_at
dispatch_at-Runs none m status always q f s e h = cc
dispatch_at-Runs (some p) m status always q f s e h = hand_to-Runs s.thread_pool m always p p f _ e

dispatch-Runs :
    (m : Methods) (status : Status) (always : Bool) (q : ℕ) (f : Fd) (s : Server)
    → at f s.connects ≡ some q
    → Runs (Keeps f s) (dispatch m status always f s)
unfolding dispatch
dispatch-Runs m status always q f s e =
    dispatch_at-Runs (at f s.connects) m status always q f s refl e

Runs-if :
    (P : Server → Type 0) (b : Bool) (x y : Option Server)
    → Runs P x
    → Runs P y
    → Runs P (if b then x else y)
Runs-if P true x y hx hy = hx
Runs-if P false x y hx hy = hy

pub Runs-weaken :
    (P Q : Server → Type 0) (r : Option Server) → ((s : Server) → P s → Q s) → Runs P r → Runs Q r
Runs-weaken P Q none k h = h
Runs-weaken P Q (some s) k h = k s h

pub Runs-bind :
    (P Q : Server → Type 0) (r : Option Server) (f : Server → Option Server)
    → Runs P r
    → ((s : Server) → P s → Runs Q (f s))
    → Runs Q (r >>= f)
Runs-bind P Q none f h k = absurd h
Runs-bind P Q (some s) f h k = k s h

-- What the kernel promises of the events of one call: each descriptor is reported once, and is the
-- listening socket's or that of a connection in the table.
abbrev pub Others : Fd → List Event → Type 0
Others f [] = Unit {0}
Others f (e ∷ events) = (fd_eq e.data_fd f ≡ false) × Others f events

abbrev pub Known : Event → Server → Type 0
Known e s = (fd_eq e.data_fd s.socket_fd ≡ true) ⊎ ((p : ℕ) × (at e.data_fd s.connects ≡ some p))

abbrev pub Expected : List Event → Server → Type 0
Expected [] s = Unit {0}
Expected (e ∷ events) s = Known e s × Others e.data_fd events × Expected events s

handle_listening :
    (m : Methods) (e : Event) (s : Server)
    → fd_eq e.data_fd s.socket_fd ≡ true
    → handle m e s ≡ some (accept_conn e.client_fd e.client_addr s)
unfolding handle
handle_listening m e s h = rw h

handle-Runs :
    (m : Methods) (e : Event) (s : Server) → Known e s → Runs (Keeps e.data_fd s) (handle m e s)
unfolding handle
handle-Runs m e s (inl h) = rw h (accept_conn-Keeps e.client_fd e.data_fd e.client_addr s)
handle-Runs m e s (inr (p, h)) =
    let f = e.data_fd in
    let K = Keeps f s in
    let on_in =
      Runs-if K e.is_in (dispatch m in_ false f s) (remove_fd f s)
        (dispatch-Runs m in_ false p f s h) (remove_fd-Runs p f s h) in
    let on_out =
      Runs-if K e.is_out (dispatch m out false f s) _ (dispatch-Runs m out false p f s h) on_in in
    let on_err =
      Runs-if K e.is_err (dispatch m error true f s) _ (dispatch-Runs m error true p f s h)
        on_out in
    let on_rdhup =
      Runs-if K e.is_rdhup (dispatch m rdhup true f s) _ (dispatch-Runs m rdhup true p f s h)
        on_err in
    Runs-if K (fd_eq f s.socket_fd) (some (accept_conn e.client_fd e.client_addr s)) _
      (accept_conn-Keeps e.client_fd f e.client_addr s) on_rdhup

Keeps-Expected :
    (f : Fd) (events : List Event) (s s' : Server)
    → Keeps f s s'
    → Others f events
    → Expected events s
    → Expected events s'
Keeps-Expected f [] s s' k o x = tt
Keeps-Expected f (e ∷ events) s s' k o (inl h, o', x) =
    (inl (rw (k.0) h), o', Keeps-Expected f events s s' k o.1 x)
Keeps-Expected f (e ∷ events) s s' k o (inr (p, h), o', x) =
    (inr (p, k.1 e.data_fd p o.0 h), o', Keeps-Expected f events s s' k o.1 x)

abbrev Any : Server → Type 0
Any s = Unit {0}

handle_all-Runs :
    (m : Methods) (events : List Event) (s : Server)
    → Expected events s
    → Runs Any (handle_all m events s)
unfolding handle_all
handle_all-Runs m [] s x = tt
handle_all-Runs m (e ∷ events) s (known, others, x) =
    Runs-bind (Keeps e.data_fd s) Any (handle m e s) (handle_all m events) (handle-Runs m e s known)
      (λ s' k. handle_all-Runs m events s' (Keeps-Expected e.data_fd events s s' k others x))

pub Runs-some : (r : Option Server) → Runs Any r → (s' : Server) × (r ≡ some s')
Runs-some none h = absurd h
Runs-some (some s) h = (s, refl)

-- If epoll_wait reports each descriptor once, and only descriptors that are registered, the loop
-- handles the whole batch and reads no null pointer, whatever the handlers, the thread pool and
-- `accept` answer, and though it adds and removes connections on its way.
pub handle_all_total :
    (m : Methods) (events : List Event) (s : Server)
    → Expected events s
    → (s' : Server) × (handle_all m events s ≡ some s')
handle_all_total m events s x = Runs-some (handle_all m events s) (handle_all-Runs m events s x)

close_one-Runs :
    (f : Fd) (o : Option ℕ) (s : Server) → at f s.connects ≡ o → Runs Any (close_one f o s)
unfolding close_one
close_one-Runs no_fd o s e = tt
close_one-Runs (fd n) none s e = tt
close_one-Runs (fd n) (some p) s e =
    Runs-weaken (Keeps (fd n) s) Any (remove_fd (fd n) s) (λ s' k. tt) (remove_fd-Runs p (fd n) s e)

drain-Runs : (queue : List Fd) (s : Server) → Runs Any (drain queue s)
unfolding drain
drain-Runs [] s = tt
drain-Runs (f ∷ rest) s =
    Runs-bind Any Any (close_one f (at f s.connects) (with_queue s rest)) (drain rest)
      (close_one-Runs f (at f s.connects) (with_queue s rest) refl) (λ s' u. drain-Runs rest s')

-- Emptying the queue of connections to close reads no null pointer, whatever descriptors are in it:
-- unknown ones, -1, or one twice.
pub drain_total : (queue : List Fd) (s : Server) → (s' : Server) × (drain queue s ≡ some s')
drain_total queue s = Runs-some (drain queue s) (drain-Runs queue s)
