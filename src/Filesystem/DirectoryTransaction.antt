-- ===== src/Filesystem/DirectoryTransaction.antt =====
-- DirectoryTransaction of native/server/src/filesystem/directory_transaction.cc. The file system is a
-- parameter: a type, its `renameat2` with RENAME_EXCHANGE, which says if it succeeded, and the cleanup
-- that the caller supplies, whose exceptions are swallowed. A path that was moved from is empty.
pub mod Target
mod Tests
use linuxcnc_ctrl.Prelude.{String, str_eq, Bool, true, false, List, [], ◌∷◌, if◌then◌else◌}

pub data State : Type 0 where
  staged committed completed rolled_back : State

pub record Transaction : Type 0 where
  pub target : String
  pub staging : String
  pub state : State

pub begin : String → String → Transaction
begin target staging = record { target = target; staging = staging; state = staged }

-- What the code calls of the file system `F`.
pub record Calls (F : Type 0) : Type 0 where
  pub exchange_paths : F → String → String → F × Bool
  pub cleanup_path : F → String → F

module _ {F : Type 0} (calls : Calls F) where
  -- `cleanup(std::move(staging_))`.
  cleanup : F → Transaction → F × Transaction
  cleanup f t =
      (if str_eq t.staging "" then f else calls.cleanup_path f t.staging, record t { staging = "" })

  commit_in : State → F → Transaction → F × Transaction × Bool
  commit_in staged f t =
      let (f', done) = calls.exchange_paths f t.target t.staging in
      (f', if done then record t { state = committed } else t, done)
  commit_in committed f t = (f, t, false)
  commit_in completed f t = (f, t, false)
  commit_in rolled_back f t = (f, t, false)

  pub commit : F → Transaction → F × Transaction × Bool
  unfolding commit_in
  commit f t = commit_in t.state f t

  complete_in : State → F → Transaction → F × Transaction
  unfolding cleanup
  complete_in committed f t = cleanup f (record t { state = completed })
  complete_in staged f t = (f, t)
  complete_in completed f t = (f, t)
  complete_in rolled_back f t = (f, t)

  pub complete : F → Transaction → F × Transaction
  unfolding complete_in
  complete f t = complete_in t.state f t

  rollback_in : State → F → Transaction → F × Transaction
  unfolding cleanup
  rollback_in committed f t =
      let (f', done) = calls.exchange_paths f t.target t.staging in
      if done then cleanup f' (record t { state = rolled_back }) else (f', t)
  rollback_in staged f t = (f, t)
  rollback_in completed f t = (f, t)
  rollback_in rolled_back f t = (f, t)

  pub rollback : F → Transaction → F × Transaction
  unfolding rollback_in
  rollback f t = rollback_in t.state f t

  -- The destructor: the second test sees the state that `rollback` has left.
  destroy_in : State → F → Transaction → F × Transaction
  unfolding rollback cleanup
  destroy_in staged f t = cleanup f t
  destroy_in committed f t = rollback f t
  destroy_in completed f t = (f, t)
  destroy_in rolled_back f t = (f, t)

  pub destroy : F → Transaction → F × Transaction
  unfolding destroy_in
  destroy f t = destroy_in t.state f t

  pub data Step : Type 0 where
    commits completes rolls_back : Step

  pub step : F × Transaction → Step → F × Transaction
  unfolding commit complete rollback
  step s commits = let (f, t, done) = commit s.0 s.1 in (f, t)
  step s completes = complete s.0 s.1
  step s rolls_back = rollback s.0 s.1

  pub run : F × Transaction → List Step → F × Transaction
  run s [] = s
  run s (x ∷ xs) = run (step s x) xs
