-- ===== src/Filesystem/DirectoryTransaction/Target.antt =====
-- What stands at the target of a transaction.
use mathlib.Core.Bool.{false≢true}
use linuxcnc_ctrl.Prelude.{
  String, str_eq, ◌≡◌, ◌≢◌, refl, sym, ap, ◌∙◌, subst, Bool, true, false, Bool-cases, inl, inr,
  List, [], ◌∷◌,
}
use linuxcnc_ctrl.Filesystem.DirectoryTransaction.{
  State, staged, committed, completed, rolled_back, Transaction, begin, Calls, cleanup, commit_in,
  commit, complete_in, complete, rollback_in, rollback, destroy_in, destroy, Step, commits,
  completes, rolls_back, step, run,
}

abbrev pub is_open : State → Bool
is_open staged = true
is_open committed = true
is_open _ = false

module _ {F C : Type 0} (calls : Calls F) (at : F → String → C) where
  -- What the manual of renameat2 says of RENAME_EXCHANGE, on what is found at a path: both names are
  -- swapped at once, or nothing changes; and a cleanup leaves all other paths alone.
  pub record Laws : Type 0 where
    pub exchanged_first :
        (f : F) (a b : String)
        → (calls.exchange_paths f a b).1 ≡ true
        → at (calls.exchange_paths f a b).0 a ≡ at f b
    pub exchanged_second :
        (f : F) (a b : String)
        → (calls.exchange_paths f a b).1 ≡ true
        → at (calls.exchange_paths f a b).0 b ≡ at f a
    pub failed :
        (f : F) (a b c : String)
        → (calls.exchange_paths f a b).1 ≡ false
        → at (calls.exchange_paths f a b).0 c ≡ at f c
    pub cleaned : (f : F) (a b : String) → a ≢ b → at (calls.cleanup_path f a) b ≡ at f b

  -- What stands at the two paths in each state, from what stood there at first.
  abbrev pub Holds : C → C → String → String → F → State → Type 0
  Holds old new target staging f staged = (at f target ≡ old) × (at f staging ≡ new)
  Holds old new target staging f committed = (at f target ≡ new) × (at f staging ≡ old)
  Holds old new target staging f completed = at f target ≡ new
  Holds old new target staging f rolled_back = at f target ≡ old

  module _ (laws : Laws) (old new : C) (target staging : String) (apart : staging ≢ target) where
    -- The two paths are those of the transaction while it is open, and hold what its state says.
    record Inv (s : F × Transaction) : Type 0 where
      pub target_kept : s.1.target ≡ target
      pub staging_kept : is_open s.1.state ≡ true → s.1.staging ≡ staging
      pub holds : Holds old new target staging s.0 s.1.state

    exchange-swaps :
        (f : F) (t : Transaction)
        → t.target ≡ target
        → t.staging ≡ staging
        → (calls.exchange_paths f t.target t.staging).1 ≡ true
        → (at (calls.exchange_paths f t.target t.staging).0 target ≡ at f staging)
          × (at (calls.exchange_paths f t.target t.staging).0 staging ≡ at f target)
    exchange-swaps f t e g h = (
      ap (at (calls.exchange_paths f t.target t.staging).0) (sym e)
          ∙ laws.exchanged_first f t.target t.staging h
          ∙ ap (at f) g,
      ap (at (calls.exchange_paths f t.target t.staging).0) (sym g)
          ∙ laws.exchanged_second f t.target t.staging h
          ∙ ap (at f) e,
    )

    cleanup-keeps :
        (f : F) (t : Transaction)
        → t.staging ≡ staging
        → at (cleanup calls f t).0 target ≡ at f target
    unfolding cleanup
    cleanup-keeps f t g = elim (Bool-cases (str_eq t.staging "")) [
      | inl none_left ↦ rw none_left refl
      | inr left ↦ rw left (laws.cleaned f t.staging target (λ e. apart (sym g ∙ e)))
    ]

    Holds-same :
        (f f' : F) (st : State)
        → ((c : String) → at f' c ≡ at f c)
        → Holds old new target staging f st
        → Holds old new target staging f' st
    Holds-same f f' staged same h = (same target ∙ h.0, same staging ∙ h.1)
    Holds-same f f' committed same h = (same target ∙ h.0, same staging ∙ h.1)
    Holds-same f f' completed same h = same target ∙ h
    Holds-same f f' rolled_back same h = same target ∙ h

    failed-Inv :
        (f : F) (t : Transaction)
        → (calls.exchange_paths f t.target t.staging).1 ≡ false
        → Inv (f, t)
        → Inv ((calls.exchange_paths f t.target t.staging).0, t)
    failed-Inv f t refused v = record {
      target_kept = v.target_kept;
      staging_kept = v.staging_kept;
      holds = Holds-same f _ t.state (λ c. laws.failed f t.target t.staging c refused) v.holds;
    }

    commit-Inv :
        (st : State) (f : F) (t : Transaction)
        → t.state ≡ st
        → Inv (f, t)
        → Inv ((commit_in calls st f t).0, (commit_in calls st f t).1)
    unfolding commit_in
    commit-Inv staged f t e v =
        let g = v.staging_kept (ap is_open e) in
        let held = subst (Holds old new target staging f) e v.holds in
        elim (Bool-cases (calls.exchange_paths f t.target t.staging).1) [
          | inl done ↦
              let swap = exchange-swaps f t v.target_kept g done in
              rw done (record {
                target_kept = v.target_kept;
                staging_kept = λ o. g;
                holds = (swap.0 ∙ held.1, swap.1 ∙ held.0);
              })
          | inr refused ↦ rw refused (failed-Inv f t refused v)
        ]
    commit-Inv committed f t e v = v
    commit-Inv completed f t e v = v
    commit-Inv rolled_back f t e v = v

    complete-Inv :
        (st : State) (f : F) (t : Transaction)
        → t.state ≡ st
        → Inv (f, t)
        → Inv (complete_in calls st f t)
    unfolding complete_in
    complete-Inv committed f t e v =
        let g = v.staging_kept (ap is_open e) in
        let held = subst (Holds old new target staging f) e v.holds in
        record {
          target_kept = v.target_kept;
          staging_kept = λ o. absurd (false≢true o);
          holds = cleanup-keeps f (record t { state = completed }) g ∙ held.0;
        }
    complete-Inv staged f t e v = v
    complete-Inv completed f t e v = v
    complete-Inv rolled_back f t e v = v

    rollback-Inv :
        (st : State) (f : F) (t : Transaction)
        → t.state ≡ st
        → Inv (f, t)
        → Inv (rollback_in calls st f t)
    unfolding rollback_in
    rollback-Inv committed f t e v =
        let g = v.staging_kept (ap is_open e) in
        let held = subst (Holds old new target staging f) e v.holds in
        let f' = (calls.exchange_paths f t.target t.staging).0 in
        elim (Bool-cases (calls.exchange_paths f t.target t.staging).1) [
          | inl done ↦
              let swap = exchange-swaps f t v.target_kept g done in
              rw done (record {
                target_kept = v.target_kept;
                staging_kept = λ o. absurd (false≢true o);
                holds = cleanup-keeps f' (record t { state = rolled_back }) g ∙ swap.0 ∙ held.1;
              })
          | inr refused ↦ rw refused (failed-Inv f t refused v)
        ]
    rollback-Inv staged f t e v = v
    rollback-Inv completed f t e v = v
    rollback-Inv rolled_back f t e v = v

    step-Inv : (s : F × Transaction) (x : Step calls) → Inv s → Inv (step calls s x)
    unfolding step commit complete rollback
    step-Inv s commits v = commit-Inv s.1.state s.0 s.1 refl v
    step-Inv s completes v = complete-Inv s.1.state s.0 s.1 refl v
    step-Inv s rolls_back v = rollback-Inv s.1.state s.0 s.1 refl v

    run-Inv : (s : F × Transaction) (xs : List (Step calls)) → Inv s → Inv (run calls s xs)
    unfolding run
    run-Inv s [] v = v
    run-Inv s (x ∷ xs) v = run-Inv (step calls s x) xs (step-Inv s x v)

    -- After the destructor the target is whole either way.
    abbrev pub Settled : F → State → Type 0
    Settled f committed = at f target ≡ new
    Settled f completed = at f target ≡ new
    Settled f _ = at f target ≡ old

    Holds-Settled : (f : F) (st : State) → Holds old new target staging f st → Settled f st
    Holds-Settled f staged h = h.0
    Holds-Settled f committed h = h.0
    Holds-Settled f completed h = h
    Holds-Settled f rolled_back h = h

    destroy-Settled :
        (st : State) (f : F) (t : Transaction)
        → t.state ≡ st
        → Inv (f, t)
        → Settled (destroy_in calls st f t).0 (destroy_in calls st f t).1.state
    unfolding destroy_in rollback cleanup
    destroy-Settled staged f t e v =
        let g = v.staging_kept (ap is_open e) in
        let held = subst (Holds old new target staging f) e v.holds in
        subst (Settled (destroy_in calls staged f t).0) (sym e) (cleanup-keeps f t g ∙ held.0)
    destroy-Settled committed f t e v = Holds-Settled _ _ (rollback-Inv t.state f t refl v).holds
    destroy-Settled completed f t e v = Holds-Settled f t.state v.holds
    destroy-Settled rolled_back f t e v = Holds-Settled f t.state v.holds

    -- The target is replaced as a whole or not at all. If exchanging and cleaning up behave as their laws
    -- say and the two paths differ, then after any calls of `commit`, `complete` and `rollback`, also
    -- ones whose exchange fails, and then the destructor: the target holds what was staged if the
    -- transaction ends completed, or committed because the final exchange back failed, and otherwise
    -- what it held at first.
    pub destroy-target :
        (f : F) (xs : List (Step calls))
        → at f target ≡ old
        → at f staging ≡ new
        → let s = run calls (f, begin target staging) xs in
          let end_ = destroy calls s.0 s.1 in Settled end_.0 end_.1.state
    unfolding destroy begin
    destroy-target f xs h k =
        let s = run calls (f, begin target staging) xs in
        destroy-Settled s.1.state s.0 s.1 refl (
          run-Inv (f, begin target staging) xs
            (record { target_kept = refl; staging_kept = λ o. refl; holds = (h, k) }))
