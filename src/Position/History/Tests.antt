-- ===== src/Position/History/Tests.antt =====
-- A history whose tail is coalesced between two batches.
use linuxcnc_ctrl.Doubles.{sample_doubles}
use linuxcnc_ctrl.Prelude.{ℕ, ℤ, pos, ◌≡◌, refl, List, [], ◌∷◌, arith}
use linuxcnc_ctrl.Position.History.Bounds.{Inv, run-create-Inv}
use linuxcnc_ctrl.Position.History.Sync.{consume, delta_sync}
use linuxcnc_ctrl.Position.History.{
  Sample, History, create, changed, coordinates_changed, collinear, collinear_loop, collinear_sums,
  entry_at, place, evict, append, unchanged, max_double, Step, appends, step, run, size, snapshot,
  since, since_entries, front_sequence, lower_bound, replaces,
}

abbrev point : ℕ → Sample ℤ
point x = record {
  coordinates = pos x ∷ pos 0 ∷ pos 0 ∷ pos 0 ∷ pos 0 ∷ pos 0 ∷ pos 0 ∷ pos 0 ∷ pos 0 ∷ [];
  motion_type = pos 1;
}

abbrev travel : List (Step sample_doubles)
travel = appends (point 1) ∷ appends (point 2) ∷ appends (point 3) ∷ []

abbrev start : History ℤ
start = run sample_doubles (create sample_doubles 3 (pos 0)) travel

abbrev later : List (Step sample_doubles)
later = appends (point 3) ∷ appends (point 4) ∷ appends (point 5) ∷ []

run-create-Inv_example : Inv sample_doubles start
run-create-Inv_example = run-create-Inv sample_doubles 3 (pos 0) travel (omega arith)

start-Inv : Inv sample_doubles start
start-Inv = run-create-Inv sample_doubles 3 (pos 0) travel (omega arith)

delta_sync_example :
    consume sample_doubles
      (since sample_doubles (run sample_doubles start later) start.next_sequence 0 start.generation)
      (snapshot sample_doubles start).packed
    ≡ (snapshot sample_doubles (run sample_doubles start later)).packed
unfolding run step append unchanged changed coordinates_changed place collinear collinear_loop
    collinear_sums entry_at evict create max_double snapshot
delta_sync_example =
    delta_sync sample_doubles start later start-Inv (omega arith) (omega arith) (omega arith)
      (refl, (refl, tt))

-- Three appends on a line make two entries.
coalesced : size sample_doubles start ≡ 2
unfolding size run step append unchanged changed coordinates_changed place collinear collinear_loop
    collinear_sums entry_at evict create max_double
coalesced = refl

-- The delta replaces one point.
one_replaced :
    (since sample_doubles
      (run sample_doubles start later)
      start.next_sequence
      0
      start.generation).replace_count
    ≡ 1
unfolding since since_entries front_sequence lower_bound replaces run step append unchanged changed
    coordinates_changed place collinear collinear_loop collinear_sums entry_at evict create
    max_double
one_replaced = refl
