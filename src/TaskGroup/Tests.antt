-- ===== src/TaskGroup/Tests.antt =====
-- Runs of a task group, and its theorems at concrete inputs.
use gocalis.Common.{◌≡◌, refl, none, some, List, [], ◌∷◌, Contexts}
use gocalis.TaskGroup.{
  Event, caller, own, starts, finishes, closes, new, run, step, start, reserve, go, err_busy,
}
use gocalis.TaskGroup.Lifetime.{IsValid, run-new-IsValid}

abbrev no_errs : Contexts
no_errs ctx = none

abbrev two_started : List Event
two_started = starts no_errs (caller 7) ∷ starts no_errs own ∷ []

busy_at_limit : (go no_errs (run (new 0 2) two_started)).1 ≡ some err_busy
unfolding run step start reserve go new
busy_at_limit = refl

run-new-IsValid_example : IsValid (run (new 0 2) two_started)
run-new-IsValid_example = run-new-IsValid 0 2 two_started

abbrev whole_life : List Event
whole_life = starts no_errs (caller 7) ∷ closes ∷ finishes 0 ∷ []
