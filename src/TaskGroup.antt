-- ===== src/TaskGroup.antt =====
-- internal/taskgroup/group.go: bounded work that is joined before resources are freed.
-- The group counts its slots; each slot has a finish function that `sync.Once` runs once. The
-- contexts of the slots are the list `links`: a slot's context is done once its caller's context is,
-- once the group's is (AfterFunc), or once it has finished. A finish function is one step: the decrement of
-- `active` and the call of the WaitGroup's Done behind it are not separated.
pub mod Lifetime
mod Tests
use gocalis.Common.{
  ℕ, zero, suc, ◌+◌, ◌-◌, ◌==◌, leb, Bool, true, false, not, ◌||◌, Option, none, some, List, [],
  ◌∷◌, ◌++◌, if◌then◌else◌, CtxError, canceled, Contexts,
}

-- The context that a slot was started under: a caller's, or the group's own, as Go passes it.
pub data Parent : Type 0 where
  caller : ℕ → Parent
  own : Parent

-- A reserved slot, and whether its finish function has run.
pub record Slot : Type 0 where
  pub parent : Parent
  pub finished : Bool

-- `base` is the context that New was given; `cancelled` says that Close has cancelled the group's
-- own. `waiting` counts what the WaitGroup still waits for. Slots stand in the order of their start.
pub record Group : Type 0 where
  pub base : ℕ
  pub cancelled : Bool
  pub closed : Bool
  pub active : ℕ
  pub limit : ℕ
  pub waiting : ℕ
  pub slots : List Slot

pub data StartError : Type 0 where
  err_closed err_busy : StartError
  context_error : CtxError → StartError

pub new : ℕ → ℕ → Group
new ctx limit = record {
  base = ctx;
  cancelled = false;
  closed = false;
  active = 0;
  limit = limit;
  waiting = 0;
  slots = [];
}

-- `g.ctx.Err()`
abbrev pub group_err : Contexts → Group → Option CtxError
group_err errs g = if g.cancelled then some canceled else errs g.base

abbrev pub parent_err : Contexts → Group → Parent → Option CtxError
parent_err errs g (caller ctx) = errs ctx
parent_err errs g own = group_err errs g

abbrev pub is_done : Option CtxError → Bool
is_done none = false
is_done (some _) = true

-- Start, past its tests.
pub reserve : Group → Parent → Group
reserve g parent = record g {
  active = g.active + 1;
  waiting = g.waiting + 1;
  slots = g.slots ++ record { parent = parent; finished = false } ∷ [];
}

pub start : Contexts → Group → Parent → Group × Option StartError
start errs g parent =
    if g.closed || is_done (group_err errs g)
    then (g, some err_closed)
    else elim (parent_err errs g parent) [
      | some err ↦ (g, some (context_error err))
      | none ↦ if leb g.limit g.active then (g, some err_busy) else (reserve g parent, none)
    ]

-- Go starts a slot under the group's own context; the task's end calls its finish function.
pub go : Contexts → Group → Group × Option StartError
unfolding start
go errs g = start errs g own

abbrev pub mark_finished : List Slot → ℕ → List Slot
mark_finished [] i = []
mark_finished (s ∷ ss) zero = record s { finished = true } ∷ ss
mark_finished (s ∷ ss) (suc i) = s ∷ mark_finished ss i

-- Whether the finish function of slot `i` has yet to run.
abbrev pub is_open : List Slot → ℕ → Bool
is_open [] i = false
is_open (s ∷ ss) zero = not s.finished
is_open (s ∷ ss) (suc i) = is_open ss i

-- The finish function of slot `i`. The counters are numbers: that they are above 0 here is
-- a theorem (`IsValid`), so that the WaitGroup does not panic.
pub finish : Group → ℕ → Group
finish g i =
    if is_open g.slots i
    then record g {
      active = g.active - 1;
      waiting = g.waiting - 1;
      slots = mark_finished g.slots i;
    }
    else g

-- Close up to its wait, and the test that ends the wait.
pub close : Group → Group
close g = record g { closed = true; cancelled = true }

pub close_returns : Group → Bool
close_returns g = g.waiting == 0

-- Whether the context that a slot's task was given is done.
pub task_done : Contexts → Group → Slot → Bool
task_done errs g s =
    s.finished || (is_done (parent_err errs g s.parent) || is_done (group_err errs g))

-- What happens to a group, in some order.
pub data Event : Type 0 where
  starts : Contexts → Parent → Event
  finishes : ℕ → Event
  closes : Event

pub step : Group → Event → Group
step g (starts errs parent) = (start errs g parent).0
step g (finishes i) = finish g i
step g closes = close g

pub run : Group → List Event → Group
run g [] = g
run g (e ∷ es) = run (step g e) es
