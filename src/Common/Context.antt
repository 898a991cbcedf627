-- ===== src/Common/Context.antt =====
-- Contexts of the Go library, as the code sees them: a context is a number, and what `ctx.Err()`
-- answers at the moment of a call is a function on these numbers that the call takes.
use Prim.Native.Nat.{ℕ}
use mathlib.Core.Bool.{Bool, true, false}
use mathlib.Core.Option.{Option, none, some}

pub data CtxError : Type 0 where
  canceled deadline_exceeded : CtxError

abbrev pub Contexts : Type 0
Contexts = ℕ → Option CtxError

-- `ctx.Err() == nil`
abbrev pub is_live : Contexts → ℕ → Bool
is_live errs ctx = elim (errs ctx) [ none ↦ true | some _ ↦ false ]
