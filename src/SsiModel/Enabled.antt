-- ===== src/SsiModel/Enabled.antt =====
-- `SsiState::possible_actions` (crates/vf-stateright/src/ssi.rs) against `SsiState::apply`.
use verified_concurrent.Base.{
  ℕ, ◌≡◌, refl, Bool, true, none, some, List, [], ◌∷◌, ◌++◌, arith, if◌then◌else◌, all, all-append,
  is_some, Option-cases, inl, inr,
}
use verified_concurrent.Base.Maps.{lookup, keys}
use verified_concurrent.SsiModel.State.{
  TxnStatus, not_started, active, committed, aborted, SsiState, SsiAction, begins, reads, writes,
  commits, aborts,
}
use verified_concurrent.SsiModel.Queries.{active_in, has_dangerous_structure}
use verified_concurrent.SsiModel.Apply.{
  may_lock, apply, apply_begin, apply_read, apply_write, apply_commit, apply_abort,
}

-- The loop over the keys: a read of each, and a write of each that may be locked.
unfoldable pub key_actions : SsiState → ℕ → List ℕ → List SsiAction
unfolding may_lock
key_actions s txn [] = []
key_actions s txn (k ∷ ks) =
    reads txn k ∷ ((if may_lock s txn k then writes txn k ∷ [] else []) ++ key_actions s txn ks)

-- The arm of the loop for a transaction of the given status.
unfoldable pub txn_actions : SsiState → ℕ → TxnStatus → List SsiAction
unfolding key_actions has_dangerous_structure keys
txn_actions s txn not_started = begins txn ∷ []
txn_actions s txn active =
    key_actions s txn (keys s.write_locks)
    ++ ((if has_dangerous_structure s txn then [] else commits txn ∷ []) ++ aborts txn ∷ [])
txn_actions s txn _ = []

unfoldable pub actions_from : SsiState → List ℕ → List SsiAction
unfolding txn_actions lookup
actions_from s [] = []
actions_from s (t ∷ ts) =
    elim (lookup t s.txn_status) [ none ↦ [] | some c ↦ txn_actions s t c ] ++ actions_from s ts

-- `SsiState::possible_actions`
unfoldable pub possible_actions : SsiState → List SsiAction
unfolding actions_from keys
possible_actions s = actions_from s (keys s.txn_status)

-- Whether `apply` yields a state.
abbrev pub enabled : SsiState → SsiAction → Bool
enabled s a = is_some (apply s a)

key_actions-enabled :
    (s : SsiState) (txn : ℕ) (ks : List ℕ)
    → active_in s txn ≡ true
    → all (enabled s) (key_actions s txn ks) ≡ true
unfolding key_actions all apply apply_read apply_write
key_actions-enabled s txn [] a = refl
key_actions-enabled s txn (k ∷ ks) a = ground (arith, key_actions-enabled s txn ks a)

txn_actions-enabled :
    (s : SsiState) (txn : ℕ) (c : TxnStatus)
    → lookup txn s.txn_status ≡ some c
    → all (enabled s) (txn_actions s txn c) ≡ true
unfolding txn_actions all apply apply_begin active_in apply_commit apply_abort
txn_actions-enabled s txn not_started e = ground arith
txn_actions-enabled s txn active e = ground (
  arith,
  all-append (enabled s) (key_actions s txn (keys s.write_locks))
      ((if has_dangerous_structure s txn then [] else commits txn ∷ []) ++ aborts txn ∷ []),
  key_actions-enabled s txn (keys s.write_locks),
)
txn_actions-enabled s txn committed e = refl
txn_actions-enabled s txn aborted e = refl

actions_from-enabled : (s : SsiState) (ts : List ℕ) → all (enabled s) (actions_from s ts) ≡ true
unfolding actions_from all
actions_from-enabled s [] = refl
actions_from-enabled s (t ∷ ts) = elim (Option-cases (lookup t s.txn_status)) [
  | inl e ↦ rw (e, actions_from) (actions_from-enabled s ts)
  | inr (c, e) ↦
      rw (e, actions_from)
        (ground (
          arith,
          all-append (enabled s) (txn_actions s t c) (actions_from s ts),
          txn_actions-enabled s t c e,
          actions_from-enabled s ts,
        ))
]

-- Every action that `possible_actions` lists in a state, reachable or not, is one that `apply`
-- carries out there.
pub possible_actions-enabled : (s : SsiState) → all (enabled s) (possible_actions s) ≡ true
unfolding possible_actions
possible_actions-enabled s = actions_from-enabled s (keys s.txn_status)
