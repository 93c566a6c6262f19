-- ===== src/Table.antt =====
-- `std::unordered_map<int,T*> connects` of core/conv_single.h and core/include/reactor.h: from
-- descriptors to pointers, null included.
use conv_event.Base.{
  ℕ, ◌+◌, ◌≡◌, refl, Bool, true, false, List, [], ◌∷◌, Option, none, some, arith, ◌==◌,
  if◌then◌else◌,
}
use conv_event.Socket.State.{Fd, fd, no_fd}

unfoldable pub fd_eq : Fd → Fd → Bool
fd_eq (fd a) (fd b) = a == b
fd_eq no_fd no_fd = true
fd_eq (fd a) no_fd = false
fd_eq no_fd (fd b) = false

abbrev pub Table : Type 0
Table = List (Fd × Option ℕ)

-- The pointer that `connects[f]` reads; a missing key reads as null.
unfoldable pub at : Fd → Table → Option ℕ
at f [] = none
at f ((g, p) ∷ t) = if fd_eq f g then p else at f t

-- `connects[f] = p`. A mere `connects[f]` of a missing key enters null under it, as `touch`.
unfoldable pub put : Fd → Option ℕ → Table → Table
put f p [] = (f, p) ∷ []
put f p ((g, q) ∷ t) = if fd_eq f g then (g, p) ∷ t else (g, q) ∷ put f p t

unfoldable pub touch : Fd → Table → Table
touch f [] = (f, none) ∷ []
touch f ((g, q) ∷ t) = if fd_eq f g then (g, q) ∷ t else (g, q) ∷ touch f t

unfoldable pub erase : Fd → Table → Table
erase f [] = []
erase f ((g, q) ∷ t) = if fd_eq f g then t else (g, q) ∷ erase f t

abbrev pub weight : Option ℕ → ℕ
weight none = 0
weight (some p) = 1

-- How many pointers are not null.
abbrev pub live : Table → ℕ
live [] = 0
live ((g, p) ∷ t) = weight p + live t

pub fd_eq_refl : (f : Fd) → fd_eq f f ≡ true
unfolding fd_eq
fd_eq_refl (fd a) = ground arith
fd_eq_refl no_fd = refl

pub fd_eq→eq : (f g : Fd) → fd_eq f g ≡ true → f ≡ g
unfolding fd_eq
fd_eq→eq (fd a) (fd b) h = ground arith
fd_eq→eq no_fd no_fd h = refl
fd_eq→eq (fd a) no_fd h = ground arith
fd_eq→eq no_fd (fd b) h = ground arith

pub live-touch : (f : Fd) (t : Table) → live (touch f t) ≡ live t
unfolding touch
live-touch f [] = refl
live-touch f ((g, q) ∷ t) = ground (arith, live-touch f t)

pub live-put :
    (f : Fd) (p : Option ℕ) (t : Table) → live (put f p t) + weight (at f t) ≡ live t + weight p
unfolding put at
live-put f p [] = omega arith
live-put f p ((g, q) ∷ t) = ground (arith, live-put f p t)

pub live-erase : (f : Fd) (t : Table) → live (erase f t) + weight (at f t) ≡ live t
unfolding erase at
live-erase f [] = refl
live-erase f ((g, q) ∷ t) = ground (arith, live-erase f t)

pub at-touch : (f g : Fd) (t : Table) → at g (touch f t) ≡ at g t
unfolding touch at
at-touch f g [] = ground arith
at-touch f g ((h, q) ∷ t) = ground (arith, at-touch f g t)

pub at-put :
    (f g : Fd) (p : Option ℕ) (t : Table) → at g (put f p t) ≡ (if fd_eq g f then p else at g t)
unfolding put at
at-put f g p [] = refl
at-put f g p ((h, q) ∷ t) =
    ground (arith, fd_eq→eq f h, fd_eq→eq g h, fd_eq→eq g f, fd_eq_refl g, at-put f g p t)

pub at-erase_ne : (f g : Fd) (t : Table) → fd_eq g f ≡ false → at g (erase f t) ≡ at g t
unfolding erase at
at-erase_ne f g [] e = refl
at-erase_ne f g ((h, q) ∷ t) e =
    ground (arith, fd_eq→eq f h, fd_eq→eq g h, fd_eq_refl g, at-erase_ne f g t)
