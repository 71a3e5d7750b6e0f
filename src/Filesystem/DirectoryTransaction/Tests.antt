-- ===== src/Filesystem/DirectoryTransaction/Tests.antt =====
-- A transaction on a file system that is a function from paths to contents.
use mathlib.Core.Bool.{false≢true}
use linuxcnc_ctrl.Prelude.{
  ℕ, String, str_eq, eq_iff, str_eq-of_ne, ne_of_str_eq, ◌≡◌, refl, sym, ap, true, Bool-cases, inl,
  inr, List, [], ◌∷◌, if◌then◌else◌,
}
use linuxcnc_ctrl.Filesystem.DirectoryTransaction.{
  Calls, begin, Step, commits, completes, rolls_back, run, destroy, cleanup, commit_in, commit,
  complete_in, complete, rollback_in, rollback, step,
}
use linuxcnc_ctrl.Filesystem.DirectoryTransaction.Target.{Laws, Settled, destroy-target}

abbrev Files : Type 0
Files = String → ℕ

abbrev swapped : Files → String → String → Files
swapped f a b p = if str_eq p a then f b else if str_eq p b then f a else f p

abbrev file_calls : Calls Files
file_calls = record {
  exchange_paths = λ f a b. (swapped f a b, true);
  cleanup_path = λ f a p. if str_eq p a then 0 else f p;
}

abbrev at : Files → String → ℕ
at f p = f p

same_path : (a : String) → str_eq a a ≡ true
same_path a = (eq_iff a a).1 refl

swapped-second : (f : Files) (a b : String) → swapped f a b b ≡ f a
swapped-second f a b = elim (Bool-cases (str_eq b a)) [
  | inl same ↦ rw same (ap f ((eq_iff b a).0 same))
  | inr differ ↦ rw differ (rw (same_path b) refl)
]

file_laws : Laws file_calls at
file_laws = record {
  exchanged_first = λ f a b h. rw (same_path a) refl;
  exchanged_second = λ f a b h. swapped-second f a b;
  failed = λ f a b c h. absurd (false≢true (sym h));
  cleaned = λ f a b h. rw (str_eq-of_ne b a (λ e. h (sym e))) refl;
}

abbrev disk : Files
disk p = if str_eq p "staging" then 2 else if str_eq p "target" then 1 else 0

abbrev calls_made : List (Step file_calls)
calls_made = commits ∷ rolls_back ∷ completes ∷ []

destroy-target_example :
    let s = run file_calls (disk, begin "target" "staging") calls_made in
    let end_ = destroy file_calls s.0 s.1 in
    Settled file_calls at file_laws 1 2 "target" "staging"
      (ne_of_str_eq "staging" "target" refl)
      end_.0
      end_.1.state
destroy-target_example =
    destroy-target file_calls at file_laws 1 2 "target" "staging"
      (ne_of_str_eq "staging" "target" refl) disk calls_made refl refl

rolled_back_in_the_end : (run file_calls (disk, begin "target" "staging") calls_made).0 "target" ≡ 1
unfolding run step commit commit_in complete complete_in rollback rollback_in cleanup begin
rolled_back_in_the_end = refl
