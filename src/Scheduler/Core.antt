-- ===== src/Scheduler/Core.antt =====
-- crates/vf-dst/src/scheduler.rs: the scheduler and its operations. The random number generator
-- (DeterministicRng of crates/vf-dst/src/random.rs, which hands its calls on to Xoshiro256** of
-- rand_xoshiro) is a parameter: its state, a draw of a Boolean, and a draw of a number below a bound.
-- The probability of a yield goes to the generator alone and is part of its draw of a Boolean. The
-- count of decisions is a u64, and wraps at 2 ^ 64.
use Prim.Native.Nat.{◌^◌, ◌%◌}
use verified_concurrent.Base.{
  ℕ, zero, suc, ◌+◌, ◌-◌, Bool, not, Option, none, some, ◌==◌, ltb, if◌then◌else◌,
}

-- `enum ScheduleDecision`; the decision `Yield` is never made.
pub data ScheduleDecision : Type 0 where
  continues : ScheduleDecision
  yields : ScheduleDecision
  switch_to : ℕ → ScheduleDecision

-- What the scheduler calls of its generator.
pub record Rng (R : Type 0) : Type 0 where
  pub gen_bool : R → R × Bool
  pub gen_range : R → ℕ → R × ℕ

-- `struct Scheduler`
pub record Scheduler (R : Type 0) : Type 0 where
  pub rng : R
  pub threads_count : ℕ
  pub current_thread : ℕ
  pub decisions_count : ℕ

-- `Scheduler::new`
abbrev pub new : {R : Type 0} → R → ℕ → Scheduler R
new r threads_count = record {
  rng = r;
  threads_count = threads_count;
  current_thread = 0;
  decisions_count = 0;
}

abbrev pub counted : {R : Type 0} → Scheduler R → Scheduler R
counted s = record s { decisions_count = (s.decisions_count + 1) % 2 ^ 64 }

module _ {R : Type 0} (g : Rng R) where
  -- The loop of `pick_other_thread` on fuel; `none` where the fuel runs out.
  unfoldable pub pick_other : ℕ → R → ℕ → ℕ → Option (R × ℕ)
  pick_other zero r threads_count current = none
  pick_other (suc fuel) r threads_count current =
      let (r', candidate) = g.gen_range r threads_count in
      let rest = pick_other fuel r' threads_count current in
      if not (candidate == current) then some (r', candidate) else rest

  -- A switch to another thread.
  unfoldable pub switched : ℕ → Scheduler R → Option (Scheduler R × ℕ)
  unfolding pick_other
  switched fuel s = elim (pick_other fuel s.rng s.threads_count s.current_thread) [
    | none ↦ none
    | some (r, other) ↦ some (record s { rng = r; current_thread = other }, other)
  ]

  -- `decide`, with the fuel for `pick_other_thread`, under its assertion that the count of decisions
  -- is then below 10_000_000.
  unfoldable pub decide : ℕ → Scheduler R → Option (Scheduler R × ScheduleDecision)
  unfolding switched
  decide fuel s =
      if s.threads_count == 1
      then some (counted s, continues)
      else let (r, yielding) = g.gen_bool s.rng in
        if yielding
        then elim (switched fuel (record (counted s) { rng = r })) [
          | none ↦ none
          | some (t, other) ↦ some (t, switch_to other)
        ]
        else some (record (counted s) { rng = r }, continues)

  -- `force_switch`, with the fuel for `pick_other_thread`.
  unfoldable pub force_switch : ℕ → Scheduler R → Option (Scheduler R × ℕ)
  unfolding switched
  force_switch fuel s =
      if s.threads_count == 1 then some (counted s, 0) else switched fuel (counted s)

-- `set_current_thread`, under its assertion `thread < threads_count`.
abbrev pub set_current_thread : {R : Type 0} → Scheduler R → ℕ → Scheduler R
set_current_thread s thread = record s { current_thread = thread }

-- `add_thread`, under its assertion on the number of threads.
abbrev pub add_thread : {R : Type 0} → Scheduler R → Scheduler R × ℕ
add_thread s = (record s { threads_count = s.threads_count + 1 }, s.threads_count)

-- The current thread after a thread has gone.
abbrev pub current_after : ℕ → ℕ → ℕ
current_after current thread =
    if current == thread
    then if ltb 0 thread then thread - 1 else 0
    else if ltb thread current
    then current - 1
    else current

-- `remove_thread`, under its assertions `thread < threads_count` and `threads_count > 1`, by which
-- no subtraction goes below 0.
abbrev pub remove_thread : {R : Type 0} → Scheduler R → ℕ → Scheduler R
remove_thread s thread = record s {
  threads_count = s.threads_count - 1;
  current_thread = current_after s.current_thread thread;
}
