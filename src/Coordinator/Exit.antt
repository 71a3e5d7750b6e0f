-- ===== src/Coordinator/Exit.antt =====
-- When the worker is gone: there was a shutdown, and every command was started.
use linuxcnc_ctrl.Coordinator.Worker.{is_exited}
use linuxcnc_ctrl.Prelude.{◌≡◌, Bool, true, false, List, [], ◌∷◌}
use linuxcnc_ctrl.Coordinator.{Coordinator, Step, shuts_down}

-- A worker that is gone has left nothing behind.
record IsLeft (c : Coordinator) : Type 0 where
  stops : is_exited c.worker ≡ true → c.stopping ≡ true
  no_normals : is_exited c.worker ≡ true → c.queue ≡ []
  no_safeties : is_exited c.worker ≡ true → c.safety_queue ≡ []

-- Some step of a history is a shutdown.
abbrev pub has_shutdown : List Step → Bool
has_shutdown [] = false
has_shutdown (shuts_down ∷ ss) = true
has_shutdown (s ∷ ss) = has_shutdown ss
