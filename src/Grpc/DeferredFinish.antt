-- ===== src/Grpc/DeferredFinish.antt =====
-- DeferredWriteFinish of native/server/src/grpc/server/deferred_write_finish.hpp: a streaming reactor
-- may call Finish only when no write is outstanding. A grpc::Status is a number, and 0 is OK. Each
-- function is one critical section.
mod Tests
use linuxcnc_ctrl.Prelude.{
  ℕ, ◌≡◌, refl, ◌∙◌, Bool, true, false, not, ◌&&◌, ◌||◌, Option, none, some, List, [], ◌∷◌, ◌++◌,
  if◌then◌else◌, is_some, arith,
}

pub record DeferredFinish : Type 0 where
  pub write_in_flight : Bool
  pub finish_started : Bool
  pub terminal_status : Option ℕ

abbrev pub status_ok : ℕ
status_ok = 0

unfoldable pub initial : DeferredFinish
initial = record { write_in_flight = false; finish_started = false; terminal_status = none }

unfoldable pub try_start_write : DeferredFinish → DeferredFinish × Bool
try_start_write d =
    if d.write_in_flight || is_some d.terminal_status || d.finish_started
    then (d, false)
    else (record d { write_in_flight = true }, true)

unfoldable pub complete_write : DeferredFinish → Bool → DeferredFinish
complete_write d ok = record d {
  write_in_flight = false;
  terminal_status =
      if not ok && not (is_some d.terminal_status) then some status_ok else d.terminal_status;
}

unfoldable pub request_finish : DeferredFinish → ℕ → DeferredFinish
request_finish d status = record d {
  terminal_status =
      if not (is_some d.terminal_status) && not d.finish_started
      then some status
      else d.terminal_status;
}

unfoldable pub take_finish_status : DeferredFinish → DeferredFinish × Option ℕ
take_finish_status d =
    if d.write_in_flight || not (is_some d.terminal_status) || d.finish_started
    then (d, none)
    else (record d { finish_started = true }, d.terminal_status)

unfoldable pub termination_requested : DeferredFinish → Bool
termination_requested d = is_some d.terminal_status || d.finish_started

pub data Step : Type 0 where
  starts_write : Step
  completes_write : Bool → Step
  requests_finish : ℕ → Step
  takes_status : Step

-- What the reactor then calls: StartWrite, or Finish with a status.
pub data Call : Type 0 where
  start_write : Call
  finish : ℕ → Call

abbrev started : DeferredFinish × Bool → DeferredFinish × List Call
started (d, true) = (d, start_write ∷ [])
started (d, false) = (d, [])

abbrev finished : DeferredFinish × Option ℕ → DeferredFinish × List Call
finished (d, some status) = (d, finish status ∷ [])
finished (d, none) = (d, [])

pub step : DeferredFinish → Step → DeferredFinish × List Call
step d starts_write = started (try_start_write d)
step d (completes_write ok) = (complete_write d ok, [])
step d (requests_finish status) = (request_finish d status, [])
step d takes_status = finished (take_finish_status d)

pub run : DeferredFinish → List Step → DeferredFinish × List Call
run d [] = (d, [])
run d (s ∷ ss) = let (d₁, now) = step d s in let (d₂, later) = run d₁ ss in (d₂, now ++ later)

-- The status of the first request, or OK if a write fails before it.
abbrev pub first_status : List Step → Option ℕ
first_status [] = none
first_status (requests_finish status ∷ ss) = some status
first_status (completes_write false ∷ ss) = some status_ok
first_status (completes_write true ∷ ss) = first_status ss
first_status (starts_write ∷ ss) = first_status ss
first_status (takes_status ∷ ss) = first_status ss

abbrev or_else : Option ℕ → Option ℕ → Option ℕ
or_else none o = o
or_else (some s) o = some s

-- Writes, and then at most one Finish, with this status.
abbrev pub EndsWith : Option ℕ → List Call → Type 0
EndsWith status [] = Unit
EndsWith status (start_write ∷ calls) = EndsWith status calls
EndsWith status (finish s ∷ calls) = (status ≡ some s) × (calls ≡ [])

over_step :
    (d : DeferredFinish) (s : Step)
    → d.finish_started ≡ true
    → is_some d.terminal_status ≡ true
    → ((step d s).0.finish_started ≡ true)
      × (is_some (step d s).0.terminal_status ≡ true)
      × ((step d s).1 ≡ [])
unfolding step try_start_write complete_write request_finish take_finish_status
over_step d starts_write h k = ground arith
over_step d (completes_write ok) h k = ground arith
over_step d (requests_finish status) h k = ground arith
over_step d takes_status h k = ground arith

over_run :
    (d : DeferredFinish) (ss : List Step)
    → d.finish_started ≡ true
    → is_some d.terminal_status ≡ true
    → (run d ss).1 ≡ []
unfolding run
over_run d [] h k = refl
over_run d (s ∷ ss) h k =
    let (f, t, none_) = over_step d s h k in rw none_ (over_run (step d s).0 ss f t)

-- The state before Finish: the status is the first one that was asked for.
run_open :
    (writing : Bool) (status : Option ℕ) (ss : List Step)
    → EndsWith
        (or_else status (first_status ss))
        (run
          (record { write_in_flight = writing; finish_started = false; terminal_status = status })
          ss).1
unfolding run step try_start_write complete_write request_finish take_finish_status
run_open writing status [] = tt
run_open writing none (requests_finish s ∷ ss) = run_open writing (some s) ss
run_open writing (some t) (requests_finish s ∷ ss) = run_open writing (some t) ss
run_open writing none (completes_write true ∷ ss) = run_open false none ss
run_open writing none (completes_write false ∷ ss) = run_open false (some status_ok) ss
run_open writing (some t) (completes_write true ∷ ss) = run_open false (some t) ss
run_open writing (some t) (completes_write false ∷ ss) = run_open false (some t) ss
run_open true none (starts_write ∷ ss) = run_open true none ss
run_open false none (starts_write ∷ ss) = run_open true none ss
run_open true (some t) (starts_write ∷ ss) = run_open true (some t) ss
run_open false (some t) (starts_write ∷ ss) = run_open false (some t) ss
run_open true none (takes_status ∷ ss) = run_open true none ss
run_open false none (takes_status ∷ ss) = run_open false none ss
run_open true (some t) (takes_status ∷ ss) = run_open true (some t) ss
run_open false (some t) (takes_status ∷ ss) = (
  refl,
  over_run (record { write_in_flight = false; finish_started = true; terminal_status = some t }) ss
      refl refl,
)

-- In any history the reactor starts writes and then calls Finish at most once, with the status of the
-- first request or with OK if a write failed earlier; nothing is started after Finish.
pub run-EndsWith : (ss : List Step) → EndsWith (first_status ss) (run initial ss).1
unfolding initial
run-EndsWith ss = run_open false none ss

-- A status is handed out only while no write is outstanding, and from then on no write starts and no
-- further status is handed out, whatever steps follow.
pub take_finish_status-quiet :
    (d : DeferredFinish) (status : ℕ) {d' : DeferredFinish} (ss : List Step)
    → take_finish_status d ≡ (d', some status)
    → (d.write_in_flight ≡ false) × ((run d' ss).1 ≡ [])
unfolding take_finish_status
take_finish_status-quiet d status {d'} ss h = ground (arith, over_run d' ss)
