-- ===== src/Checkers/SsiTests.antt =====
-- Histories for the checks of crates/vf-core/src/invariants/ssi.rs, and the theorem about them at one.
use verified_concurrent.Base.{◌≡◌, refl, true, ◌&&◌, not, none, some, [], ◌∷◌, all}
use verified_concurrent.Checkers.SsiHistory.{
  SsiHistory, empty_history, record_begin, record_read, record_write, record_commit, committed_txns,
  is_dangerous, first_committer_wins, is_serializable, no_lost_writes,
}
use verified_concurrent.Checkers.Serializable.{conflict_free, is_serializable_iff}

-- Two transactions overlap and write one key.
abbrev overlapping : SsiHistory
overlapping = record_commit 2 5 (
    record_commit 1 4 (
      record_write 2 100 3
        (record_write 1 100 2 (record_begin 2 1 (record_begin 1 0 empty_history)))))

overlapping_fails : (first_committer_wins overlapping).message ≡ some (1 ∷ 2 ∷ 100 ∷ [])
unfolding first_committer_wins record_begin record_commit
overlapping_fails = refl

is_serializable_iff_example : (is_serializable overlapping).holds ≡ (
    conflict_free overlapping overlapping.writes
    && all (λ t. not (is_dangerous overlapping t)) (committed_txns overlapping))
is_serializable_iff_example = is_serializable_iff overlapping

-- One transaction, alone, writes a key twice: it is reported as concurrent with itself.
abbrev rewriting : SsiHistory
rewriting =
    record_commit 1 3 (record_write 1 100 2 (record_write 1 100 1 (record_begin 1 0 empty_history)))

rewriting_fails : (first_committer_wins rewriting).message ≡ some (1 ∷ 1 ∷ 100 ∷ [])
unfolding first_committer_wins record_begin record_commit
rewriting_fails = refl

-- A transaction that begins after a write is committed and reads the initial version passes.
abbrev forgetful : SsiHistory
forgetful = record_commit 2 5 (
    record_read 2 100 none 4 (
      record_begin 2 3 (record_commit 1 2 (record_write 1 100 1 (record_begin 1 0 empty_history)))))

forgetful_passes : (no_lost_writes forgetful).holds ≡ true
unfolding no_lost_writes record_begin record_commit
forgetful_passes = refl
