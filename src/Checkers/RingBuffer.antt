-- ===== src/Checkers/RingBuffer.antt =====
-- crates/vf-core/src/invariants/ring_buffer.rs: the checker of a ring buffer, which is known by the
-- messages that it reports.
use verified_concurrent.Base.{
  ℕ, suc, zero, ◌+◌, ◌≡◌, refl, Bool, true, false, ◌||◌, not, Option, none, some, List, [], ◌∷◌,
  arith, length, get_elem?, contains, ltb, unwrap_or, ◌==◌, if◌then◌else◌, ◌↔◌, Bool-cases,
  Option-cases, inl, inr, subst, sym, ◌∙◌,
}
use mathlib.Core.Option.{some-injective}
use verified_concurrent.Checkers.Property.{PropertyResult, pass, fail}
use verified_concurrent.Checkers.Stack.{first_lost}
use verified_concurrent.Checkers.Contents.{first_lost_iff}

-- What `trait RingBufferProperties` reports.
pub record RingBufferProperties : Type 0 where
  pub produced_messages : List ℕ
  pub consumed_messages : List ℕ
  pub current_contents : List ℕ
  pub capacity : ℕ

-- `struct RingBufferPropertyChecker`
pub record RingBufferPropertyChecker : Type 0 where
  pub buffer : RingBufferProperties
  pub dst_seed : Option ℕ

-- `check_no_lost_messages`
unfoldable pub check_no_lost_messages : RingBufferPropertyChecker → PropertyResult
unfolding first_lost
check_no_lost_messages c =
    elim (first_lost c.buffer.consumed_messages c.buffer.current_contents
      c.buffer.produced_messages) [
        | none ↦ pass 45
        | some m ↦ fail 45 (m ∷ []) (some (record { dst_seed = c.dst_seed }))
      ]

-- The message at an index that may be out of range.
abbrev pub differs : ℕ → Option ℕ → Bool
differs m none = false
differs m (some p) = not (m == p)

-- The loop of `check_fifo_order` from index `i`.
unfoldable pub fifo_from : List ℕ → ℕ → List ℕ → PropertyResult
fifo_from produced i [] = pass 58
fifo_from produced i (m ∷ ms) =
    let rest = fifo_from produced (i + 1) ms in
    if differs m (get_elem? produced i)
    then fail 58 (i ∷ m ∷ unwrap_or 0 (get_elem? produced i) ∷ []) none
    else rest

-- `check_fifo_order`
unfoldable pub check_fifo_order : RingBufferPropertyChecker → PropertyResult
unfolding fifo_from
check_fifo_order c = fifo_from c.buffer.produced_messages 0 c.buffer.consumed_messages

-- `check_bounded_capacity`
abbrev pub check_bounded_capacity : RingBufferPropertyChecker → PropertyResult
check_bounded_capacity c =
    if ltb c.buffer.capacity (length c.buffer.current_contents)
    then fail 72 (length c.buffer.current_contents ∷ c.buffer.capacity ∷ []) none
    else pass 72

-- `check_all`
unfoldable pub check_all_messages : RingBufferPropertyChecker → List PropertyResult
unfolding check_no_lost_messages check_fifo_order
check_all_messages c = check_no_lost_messages c ∷ check_fifo_order c ∷ check_bounded_capacity c ∷ []

-- The messages agree wherever both lists have one, the first from index `i` on.
abbrev Agree : List ℕ → ℕ → List ℕ → Type 0
Agree produced i ms =
    (k x y : ℕ) → get_elem? ms k ≡ some x → get_elem? produced (i + k) ≡ some y → x ≡ y

differs-eq : (m y : ℕ) (o : Option ℕ) → differs m o ≡ false → o ≡ some y → m ≡ y
differs-eq m y none h e = absurd (ground arith)
differs-eq m y (some p) h e = ground arith

Agree-cons :
    (produced : List ℕ) (i m : ℕ) (ms : List ℕ)
    → differs m (get_elem? produced i) ≡ false
    → Agree produced (i + 1) ms
    → Agree produced i (m ∷ ms)
Agree-cons produced i m ms d a zero x y e f =
    sym (some-injective m x e)
    ∙ differs-eq m y (get_elem? produced i) d
        (subst (λ j. get_elem? produced j ≡ some y) (omega arith) f)
Agree-cons produced i m ms d a (suc k) x y e f =
    a k x y e (subst (λ j. get_elem? produced j ≡ some y) (omega arith) f)

Agree-tail :
    (produced : List ℕ) (i m : ℕ) (ms : List ℕ)
    → Agree produced i (m ∷ ms)
    → Agree produced (i + 1) ms
Agree-tail produced i m ms a k x y e f =
    a (suc k) x y e (subst (λ j. get_elem? produced j ≡ some y) (omega arith) f)

Agree-head :
    (produced : List ℕ) (i m : ℕ) (ms : List ℕ)
    → Agree produced i (m ∷ ms)
    → differs m (get_elem? produced i) ≡ false
Agree-head produced i m ms a = first (get_elem? produced i) refl
  where
    first : (o : Option ℕ) → get_elem? produced i ≡ o → differs m o ≡ false
    first none e = refl
    first (some y) e =
        let same : m ≡ y =
          a 0 m y refl (subst (λ j. get_elem? produced j ≡ some y) (omega arith) e) in
        ground arith

fifo_from-Agree :
    (produced : List ℕ) (i : ℕ) (ms : List ℕ)
    → (fifo_from produced i ms).holds ≡ true
    → Agree produced i ms
unfolding fifo_from
fifo_from-Agree produced i [] h = λ k x y e f. absurd (ground arith)
fifo_from-Agree produced i (m ∷ ms) h = elim (Bool-cases (differs m (get_elem? produced i))) [
  | inl d ↦ absurd (ground arith)
  | inr d ↦ Agree-cons produced i m ms d (fifo_from-Agree produced (i + 1) ms (ground arith))
]

Agree-fifo_from :
    (produced : List ℕ) (i : ℕ) (ms : List ℕ)
    → Agree produced i ms
    → (fifo_from produced i ms).holds ≡ true
unfolding fifo_from
Agree-fifo_from produced i [] a = refl
Agree-fifo_from produced i (m ∷ ms) a =
    let d = Agree-head produced i m ms a in
    let h = Agree-fifo_from produced (i + 1) ms (Agree-tail produced i m ms a) in ground arith

-- FIFO_Order holds exactly where the consumed and the produced messages agree at every index that
-- both have.
pub check_fifo_order_iff :
    (c : RingBufferPropertyChecker)
    → ((check_fifo_order c).holds ≡ true) ↔ (
        (k x y : ℕ)
        → get_elem? c.buffer.consumed_messages k ≡ some x
        → get_elem? c.buffer.produced_messages k ≡ some y
        → x ≡ y)
unfolding check_fifo_order
check_fifo_order_iff c = (
  λ h k x y e f.
      fifo_from-Agree c.buffer.produced_messages 0 c.buffer.consumed_messages h k x y e
        (subst (λ j. get_elem? c.buffer.produced_messages j ≡ some y) (omega arith) f),
  λ a. Agree-fifo_from c.buffer.produced_messages 0 c.buffer.consumed_messages (λ k x y e f.
      a k x y e (subst (λ j. get_elem? c.buffer.produced_messages j ≡ some y) (omega arith) f)),
)

-- NoLostMessages holds exactly where each produced message has been consumed or is in the buffer.
pub check_no_lost_messages_iff :
    (c : RingBufferPropertyChecker)
    → ((check_no_lost_messages c).holds ≡ true) ↔ (
        (e : ℕ)
        → contains e c.buffer.produced_messages ≡ true
        → (contains e c.buffer.consumed_messages || contains e c.buffer.current_contents) ≡ true)
unfolding check_no_lost_messages
check_no_lost_messages_iff c =
    let cs = c.buffer.consumed_messages in
    let ps = c.buffer.current_contents in
    let es = c.buffer.produced_messages in
    let (to, from) = first_lost_iff cs ps es in
    elim (Option-cases (first_lost cs ps es)) [
      | inl e ↦ (λ h. to e, λ h. ground arith)
      | inr (x, e) ↦ (λ h. absurd (ground arith), λ h. let f = from h in absurd (ground arith))
    ]
