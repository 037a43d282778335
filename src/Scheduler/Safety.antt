-- ===== src/Scheduler/Safety.antt =====
-- What the scheduler of crates/vf-dst/src/scheduler.rs keeps, and where its loop ends. Of the generator
-- only the range of its draws is assumed, as rand documents it for `gen_range`: that a draw differs
-- from the current thread sooner or later is a chance and no property of the generator.
use verified_concurrent.Base.{
  ℕ, zero, suc, ◌+◌, ◌<◌, ◌≤◌, ◌≡◌, refl, ◌≢◌, true, false, none, some, arith, ◌==◌, Bool-cases,
  inl, inr, ◌⊎◌,
}
use verified_concurrent.Scheduler.Core.{
  ScheduleDecision, continues, yields, switch_to, Rng, Scheduler, pick_other, counted, switched,
  decide, force_switch, add_thread, remove_thread,
}

-- The current thread is one of the threads.
abbrev pub IsValid : {R : Type 0} → Scheduler R → Type 0
IsValid s = s.current_thread < s.threads_count

-- The given number of draws from a generator, after some first ones.
unfoldable pub draw : {R : Type 0} → Rng R → ℕ → R → ℕ → ℕ
draw g zero r n = (g.gen_range r n).1
draw g (suc k) r n = draw g k (g.gen_range r n).0 n

-- All of the first draws, as many as the fuel, are the same number.
abbrev pub AllDraws : {R : Type 0} → Rng R → ℕ → R → ℕ → ℕ → Type 0
AllDraws g fuel r n c = (k : ℕ) → k < fuel → draw g k r n ≡ c

-- The first draw that is not the current thread.
abbrev pub FirstOther : {R : Type 0} → Rng R → ℕ → R → ℕ → ℕ → ℕ → Type 0
FirstOther g fuel r n c o = (k : ℕ) × (k < fuel) × (draw g k r n ≡ o) × (o ≢ c) × AllDraws g k r n c

-- What a decision means: to continue with the same thread, which is the only one or has not drawn to
-- yield; or to switch, having drawn to yield, to the first draw that is another thread.
abbrev pub Follows : {R : Type 0} → Rng R → ℕ → Scheduler R → ScheduleDecision → ℕ → Type 0
Follows g fuel s continues after =
    (after ≡ s.current_thread) × ((s.threads_count ≡ 1) ⊎ ((g.gen_bool s.rng).1 ≡ false))
Follows g fuel s yields after = ⊥
Follows g fuel s (switch_to o) after =
    (1 < s.threads_count)
    × ((g.gen_bool s.rng).1 ≡ true)
    × (after ≡ o)
    × FirstOther g fuel (g.gen_bool s.rng).0 s.threads_count s.current_thread o

module _ {R : Type 0} (g : Rng R) where
  AllDraws-suc :
      (k : ℕ) (r : R) (n c : ℕ)
      → (g.gen_range r n).1 ≡ c
      → AllDraws g k (g.gen_range r n).0 n c
      → AllDraws g (suc k) r n c
  unfolding draw
  AllDraws-suc k r n c e h zero l = e
  AllDraws-suc k r n c e h (suc j) l = h j (omega arith)

  -- The loop returns the first draw that is another thread, and runs out of fuel exactly where none
  -- of its draws is one.
  pub pick_other_lem :
      (fuel : ℕ) (r : R) (n c : ℕ)
      → ((q : R) × (o : ℕ) × (pick_other g fuel r n c ≡ some (q, o)) × FirstOther g fuel r n c o)
        ⊎ ((pick_other g fuel r n c ≡ none) × AllDraws g fuel r n c)
  unfolding pick_other draw
  pick_other_lem zero r n c = inr (refl, λ k l. absurd (omega arith))
  pick_other_lem (suc fuel) r n c = elim (Bool-cases ((g.gen_range r n).1 == c)) [
    | inl e ↦ elim (pick_other_lem fuel (g.gen_range r n).0 n c) [
      | inl (q, o, a, (k, l, d, ne, before)) ↦ inl (
        q,
        o,
        ground arith,
        (suc k, omega arith, d, ne, AllDraws-suc k r n c (ground arith) before),
      )
      | inr (a, h) ↦ inr (ground arith, AllDraws-suc fuel r n c (ground arith) h)
    ]
    | inr e ↦ inl (
      (g.gen_range r n).0,
      (g.gen_range r n).1,
      ground arith,
      (0, omega arith, refl, ground arith, λ k l. absurd (omega arith)),
    )
  ]

-- What the scheduler is after an operation: as many threads, a current one among them, and one more
-- decision.
abbrev pub Keeps : {R : Type 0} → Scheduler R → Scheduler R → Type 0
Keeps s t =
    (t.threads_count ≡ s.threads_count) × IsValid t × (t.decisions_count ≡ s.decisions_count + 1)

module _ {R : Type 0} (g : Rng R)
    (bounded : (r : R) (n : ℕ) → 0 < n → (g.gen_range r n).1 < n) where
  draw_bounded : (k : ℕ) (r : R) (n : ℕ) → 0 < n → draw g k r n < n
  unfolding draw
  draw_bounded zero r n l = bounded r n l
  draw_bounded (suc k) r n l = draw_bounded k (g.gen_range r n).0 n l

  -- A switch from a scheduler whose decision has been counted.
  switched_lem :
      (fuel : ℕ) (s : Scheduler R)
      → 1 < s.threads_count
      → ((t : Scheduler R) × (o : ℕ) × (switched g fuel s ≡ some (t, o))
          × (t.threads_count ≡ s.threads_count)
          × IsValid t
          × (t.decisions_count ≡ s.decisions_count)
          × (t.current_thread ≡ o)
          × FirstOther g fuel s.rng s.threads_count s.current_thread o)
        ⊎ ((switched g fuel s ≡ none) × AllDraws g fuel s.rng s.threads_count s.current_thread)
  unfolding switched
  switched_lem fuel s l = elim (pick_other_lem g fuel s.rng s.threads_count s.current_thread) [
    | inl (q, o, a, (k, f, d, ne, before)) ↦
        let b = draw_bounded k s.rng s.threads_count (omega arith) in
        inl (
          record s { rng = q; current_thread = o },
          o,
          ground arith,
          refl,
          omega arith,
          refl,
          refl,
          (k, f, d, ne, before),
        )
    | inr (a, h) ↦ inr (ground arith, h)
  ]

  -- With a generator whose draws are in range, for any fuel: a scheduler whose current thread is
  -- valid, and whose count of decisions satisfies the assertion of `decide`, decides, or it draws to
  -- yield and all of the draws of a thread, as many as the fuel, are the current thread. Where it
  -- decides, it keeps its number of threads and a valid current thread and counts one decision; it
  -- continues with the same thread, where that is the only one or it draws not to yield, or it has
  -- drawn to yield and switches to the thread that the decision names, which is the first draw that
  -- is another.
  pub decide_lem :
      (fuel : ℕ) (s : Scheduler R)
      → IsValid s
      → s.decisions_count + 1 < 10000000
      → ((t : Scheduler R) × (d : ScheduleDecision) × (decide g fuel s ≡ some (t, d))
          × Keeps s t
          × Follows g fuel s d t.current_thread)
        ⊎ ((decide g fuel s ≡ none)
            × (1 < s.threads_count)
            × ((g.gen_bool s.rng).1 ≡ true)
            × AllDraws g fuel (g.gen_bool s.rng).0 s.threads_count s.current_thread)
  unfolding decide
  decide_lem fuel s v l = elim (Bool-cases (s.threads_count == 1)) [
    | inl e ↦
        inl (counted s, continues, ground arith, (refl, v, omega arith), (refl, inl (ground arith)))
    | inr e ↦ elim (Bool-cases (g.gen_bool s.rng).1) [
      | inl f ↦
          let m : 1 < s.threads_count = ground arith in
          elim (switched_lem fuel (record (counted s) { rng = (g.gen_bool s.rng).0 }) m) [
            | inl (t, o, a, b, c, i, j, first) ↦
                inl (t, switch_to o, ground arith, (b, c, omega arith), (m, f, j, first))
            | inr (a, h) ↦ inr (ground arith, m, f, h)
          ]
      | inr f ↦ inl (
        record (counted s) { rng = (g.gen_bool s.rng).0 },
        continues,
        ground arith,
        (refl, v, omega arith),
        (refl, inr f),
      )
    ]
  ]

  -- With a generator whose draws are in range, for any fuel, and a scheduler whose current thread is
  -- valid and whose count of decisions is below 2 ^ 64 - 1: a forced switch counts a decision and goes to a valid thread, which is the one that it returns: thread 0 where that is the
  -- only one, else the first draw that is another thread. It has no result exactly where there are
  -- others and all of the draws are the current thread, as many as the fuel.
  pub force_switch_lem :
      (fuel : ℕ) (s : Scheduler R)
      → IsValid s
      → s.decisions_count + 1 < 18446744073709551616
      → ((t : Scheduler R) × (o : ℕ) × (force_switch g fuel s ≡ some (t, o))
          × Keeps s t
          × (t.current_thread ≡ o)
          × (((s.threads_count ≡ 1) × (o ≡ 0))
              ⊎ FirstOther g fuel s.rng s.threads_count s.current_thread o))
        ⊎ ((force_switch g fuel s ≡ none)
            × (1 < s.threads_count)
            × AllDraws g fuel s.rng s.threads_count s.current_thread)
  unfolding force_switch
  force_switch_lem fuel s v l = elim (Bool-cases (s.threads_count == 1)) [
    | inl e ↦
        inl (
          counted s,
          0,
          ground arith,
          (refl, v, omega arith),
          ground arith,
          inl (ground arith, refl),
        )
    | inr e ↦
        let m : 1 < s.threads_count = ground arith in
        elim (switched_lem fuel (counted s) m) [
          | inl (t, o, a, b, c, i, j, first) ↦
              inl (t, o, ground arith, (b, c, omega arith), j, inr first)
          | inr (a, h) ↦ inr (ground arith, m, h)
        ]
  ]

-- When a thread is removed, under the assertions of `remove_thread`, the current thread stays valid
-- for the smaller number of threads; where the current thread is not the one removed, it is the same
-- thread as before under the new numbers, which leave out the removed one.
pub remove_thread-IsValid :
    {R : Type 0} (s : Scheduler R) (thread : ℕ)
    → IsValid s
    → thread < s.threads_count
    → 1 < s.threads_count
    → IsValid (remove_thread s thread)
      × (s.current_thread ≢ thread
          → ((remove_thread s thread).current_thread < thread
              → (remove_thread s thread).current_thread ≡ s.current_thread)
            × (thread ≤ (remove_thread s thread).current_thread
                → (remove_thread s thread).current_thread + 1 ≡ s.current_thread))
remove_thread-IsValid s thread v l m = (ground arith, λ ne. (λ h. ground arith, λ h. ground arith))

-- An added thread gets a number that no thread had, and the current thread stays valid.
pub add_thread-IsValid :
    {R : Type 0} (s : Scheduler R)
    → IsValid s
    → IsValid (add_thread s).0
      × ((add_thread s).1 < (add_thread s).0.threads_count)
      × (s.current_thread < (add_thread s).1)
add_thread-IsValid s v = ground arith
