-- ===== src/Scheduler/Tests.antt =====
-- The scheduler of crates/vf-dst/src/scheduler.rs with a generator that counts.
use verified_concurrent.Base.{
  ℕ, ◌+◌, ◌<◌, ◌≤◌, ◌≡◌, refl, ◌≢◌, Bool, true, none, some, ◌⊎◌, arith, ◌==◌, leb, ◌||◌,
  if◌then◌else◌,
}
use mathlib.Core.Option
use verified_concurrent.Scheduler.Core.{
  Rng, Scheduler, ScheduleDecision, switch_to, decide, force_switch, remove_thread, add_thread,
}
use verified_concurrent.Scheduler.Safety.{
  IsValid, AllDraws, FirstOther, Keeps, Follows, decide_lem, force_switch_lem,
  remove_thread-IsValid, add_thread-IsValid,
}

-- Draws 0 and 1 in turn, and always yields.
abbrev toggle : Rng ℕ
toggle = record {
  gen_bool = λ r. (r, true);
  gen_range = λ r n. (if r == 0 then 1 else 0, if r == 0 || leb n 1 then 0 else 1);
}

toggle_bounded : (r n : ℕ) → 0 < n → (toggle.gen_range r n).1 < n
toggle_bounded r n l = ground arith

abbrev three : Scheduler ℕ
three = record { rng = 1; threads_count = 3; current_thread = 1; decisions_count = 0 }

-- The draw of 1, the current thread, is passed over.
three_switches : Option.map (λ p. p.1) (decide toggle 2 three) ≡ some (switch_to 0)
unfolding decide
three_switches = refl

-- With fuel for the first draw alone there is no decision.
one_draw_undecided : Option.map (λ p. p.1) (decide toggle 1 three) ≡ none
unfolding decide
one_draw_undecided = refl

decide_example :
    ((t : Scheduler ℕ) × (d : ScheduleDecision) × (decide toggle 2 three ≡ some (t, d))
      × Keeps three t
      × Follows toggle 2 three d t.current_thread)
    ⊎ ((decide toggle 2 three ≡ none)
        × (1 < 3)
        × (◌≡◌ {A = Bool} true true)
        × AllDraws toggle 2 1 3 1)
decide_example = decide_lem toggle toggle_bounded 2 three (omega arith) (omega arith)

force_switch_example :
    ((t : Scheduler ℕ) × (o : ℕ) × (force_switch toggle 2 three ≡ some (t, o))
      × Keeps three t
      × (t.current_thread ≡ o)
      × (((◌≡◌ {A = ℕ} 3 1) × (o ≡ 0)) ⊎ FirstOther toggle 2 1 3 1 o))
    ⊎ ((force_switch toggle 2 three ≡ none) × (1 < 3) × AllDraws toggle 2 1 3 1)
force_switch_example = force_switch_lem toggle toggle_bounded 2 three (omega arith) (omega arith)

remove_thread_example :
    IsValid (remove_thread three 0)
    × (three.current_thread ≢ 0
        → ((remove_thread three 0).current_thread < 0 → (remove_thread three 0).current_thread ≡ 1)
          × (0 ≤ (remove_thread three 0).current_thread
              → (remove_thread three 0).current_thread + 1 ≡ 1))
remove_thread_example = remove_thread-IsValid three 0 (omega arith) (omega arith) (omega arith)

add_thread_example :
    IsValid (add_thread three).0
    × ((add_thread three).1 < (add_thread three).0.threads_count)
    × (1 < (add_thread three).1)
add_thread_example = add_thread-IsValid three (omega arith)
