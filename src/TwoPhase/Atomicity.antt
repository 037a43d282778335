-- ===== src/TwoPhase/Atomicity.antt =====
-- Two-phase commit (tools/vf-evolve/tasks/two_phase_commit/initial.rs) under any sequence of calls:
-- no transaction is committed at one resource manager and aborted at another.
use verified_concurrent.Base.{
  ℕ, ◌≡◌, refl, Bool, true, some, List, [], ◌∷◌, arith, Option-cases, contains, inl, inr, ◌⊎◌,
}
use verified_concurrent.Base.Maps.{lookup}
use verified_concurrent.TwoPhase.Txn.{RmState, TmState}
use verified_concurrent.TwoPhase.Table.{
  TwoPhaseCommit, new, begin, get_tm_state, get_rm_state, tm_prepare, rm_prepare,
  rm_choose_to_abort, tm_commit, tm_abort, rm_rcv_commit, rm_rcv_abort, run_commit, run_abort,
}
use verified_concurrent.TwoPhase.Votes.{fits}
use verified_concurrent.TwoPhase.Consistency.{
  IsConsistent, begin-Keeps, tm_prepare-Keeps, rm_prepare-Keeps, rm_choose_to_abort-Keeps,
  tm_commit-Keeps, tm_abort-Keeps, rm_rcv_commit-Keeps, rm_rcv_abort-Keeps, run_commit-Keeps,
  run_abort-Keeps,
}

-- The calls that a client can make.
pub data Call : Type 0 where
  begins : Call
  tm_prepares tm_commits tm_aborts run_commits : ℕ → Call
  rm_prepares rm_aborts rm_rcv_commits rm_rcv_aborts run_aborts : ℕ → ℕ → Call

-- The table after a call.
unfoldable pub after : TwoPhaseCommit → Call → TwoPhaseCommit
unfolding begin tm_prepare tm_commit tm_abort run_commit rm_prepare rm_choose_to_abort rm_rcv_commit
    rm_rcv_abort run_abort
after t begins = (begin t).0
after t (tm_prepares id) = (tm_prepare id t).0
after t (tm_commits id) = (tm_commit id t).0
after t (tm_aborts id) = (tm_abort id t).0
after t (run_commits id) = (run_commit id t).0
after t (rm_prepares id rm) = (rm_prepare id rm t).0
after t (rm_aborts id rm) = (rm_choose_to_abort id rm t).0
after t (rm_rcv_commits id rm) = (rm_rcv_commit id rm t).0
after t (rm_rcv_aborts id rm) = (rm_rcv_abort id rm t).0
after t (run_aborts id rm) = (run_abort id rm t).0

unfoldable pub after_all : TwoPhaseCommit → List Call → TwoPhaseCommit
unfolding after
after_all t [] = t
after_all t (c ∷ cs) = after_all (after t c) cs

after-IsConsistent : (t : TwoPhaseCommit) (c : Call) → IsConsistent t → IsConsistent (after t c)
unfolding after
after-IsConsistent t begins = begin-Keeps t
after-IsConsistent t (tm_prepares id) = tm_prepare-Keeps id t
after-IsConsistent t (tm_commits id) = tm_commit-Keeps id t
after-IsConsistent t (tm_aborts id) = tm_abort-Keeps id t
after-IsConsistent t (run_commits id) = run_commit-Keeps id t
after-IsConsistent t (rm_prepares id rm) = rm_prepare-Keeps id rm t
after-IsConsistent t (rm_aborts id rm) = rm_choose_to_abort-Keeps id rm t
after-IsConsistent t (rm_rcv_commits id rm) = rm_rcv_commit-Keeps id rm t
after-IsConsistent t (rm_rcv_aborts id rm) = rm_rcv_abort-Keeps id rm t
after-IsConsistent t (run_aborts id rm) = run_abort-Keeps id rm t

after_all-IsConsistent :
    (t : TwoPhaseCommit) (cs : List Call) → IsConsistent t → IsConsistent (after_all t cs)
unfolding after_all
after_all-IsConsistent t [] h = h
after_all-IsConsistent t (c ∷ cs) h =
    after_all-IsConsistent (after t c) cs (after-IsConsistent t c h)

new-IsConsistent : (rm_ids : List ℕ) → IsConsistent (new rm_ids)
unfolding new lookup
new-IsConsistent rm_ids id x e = absurd (ground arith)

fits_agree :
    (tm : TmState) (v w : Bool) (s : RmState)
    → fits tm v (some RmState.committed) ≡ true
    → fits tm w (some s) ≡ true
    → (tm ≡ TmState.committed) × ((s ≡ RmState.prepared) ⊎ (s ≡ RmState.committed))
fits_agree TmState.committed v w RmState.prepared f g = (refl, inl refl)
fits_agree TmState.committed v w RmState.committed f g = (refl, inr refl)
fits_agree TmState.committed v w _ f g = absurd (ground arith)
fits_agree _ v w s f g = absurd (ground arith)

agree :
    (t : TwoPhaseCommit) (id rm other : ℕ) (s : RmState)
    → IsConsistent t
    → get_rm_state t id rm ≡ some RmState.committed
    → get_rm_state t id other ≡ some s
    → (get_tm_state t id ≡ some TmState.committed)
      × ((s ≡ RmState.prepared) ⊎ (s ≡ RmState.committed))
unfolding get_rm_state get_tm_state
agree t id rm other s c p q = elim (Option-cases (lookup id t.txns)) [
  | inl e ↦ absurd (ground arith)
  | inr (x, e) ↦
      let (d, o) =
        fits_agree x.tm_state (contains rm x.prepared_set) (contains other x.prepared_set) s
          (ground (arith, c id x e rm)) (ground (arith, c id x e other)) in
      (ground arith, o)
]

-- After any calls on a new table, in whatever order and whether they succeed or fail, if one
-- resource manager has committed a transaction then the transaction manager has decided to commit
-- it, and every resource manager of the transaction is prepared or has committed: none is still
-- working and none has aborted.
pub commit_is_atomic :
    (rm_ids : List ℕ) (cs : List Call) (id rm other : ℕ) (s : RmState)
    → let t = after_all (new rm_ids) cs in
      get_rm_state t id rm ≡ some RmState.committed
      → get_rm_state t id other ≡ some s
      → (get_tm_state t id ≡ some TmState.committed)
        × ((s ≡ RmState.prepared) ⊎ (s ≡ RmState.committed))
commit_is_atomic rm_ids cs id rm other s =
    agree (after_all (new rm_ids) cs) id rm other s
      (after_all-IsConsistent (new rm_ids) cs (new-IsConsistent rm_ids))
