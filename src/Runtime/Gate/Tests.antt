-- ===== src/Runtime/Gate/Tests.antt =====
-- A reactor that is invoked, finished and detached.
use linuxcnc_ctrl.Prelude.{◌≡◌, refl, List, [], ◌∷◌}
use linuxcnc_ctrl.Runtime.Gate.{
  invoked, finished, create, Step, invokes, finishes, detaches, step, run, invoke, finish, detach,
  FinishLast, run-FinishLast,
}

abbrev life : List Step
life = invokes ∷ finishes ∷ invokes ∷ finishes ∷ detaches ∷ invokes ∷ []

run-FinishLast_example : FinishLast (run (create 4) life).1
run-FinishLast_example = run-FinishLast (create 4) life

two_calls : (run (create 4) life).1 ≡ invoked 4 ∷ finished 4 ∷ []
unfolding run step invoke finish detach create
two_calls = refl
