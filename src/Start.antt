-- ===== src/Start.antt =====
-- How the start of a server (core/conv_single.h, core/conv_multi.h) goes: its steps end the program where a
-- system call fails, by `close(); exit(-1);`.

-- The program goes on, or ends by `exit(-1)`, or throws.
pub data Start (S : Type 0) : Type 0 where
  running exited : S → Start S
  thrown : Start S

infixl 5 ◌>>=◌
abbrev pub ◌>>=◌ : {S : Type 0} → Start S → (S → Start S) → Start S
running s >>= f = f s
exited s >>= f = exited s
thrown >>= f = thrown
