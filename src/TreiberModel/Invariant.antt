-- ===== src/TreiberModel/Invariant.antt =====
-- What holds in every state of the Treiber stack model (crates/vf-stateright/src/treiber_stack.rs)
-- between its linked list, the nodes in flight and what the threads have read.
use verified_concurrent.Base.{
  ℕ, ◌<◌, ◌≤◌, ◌≡◌, refl, ◌≢◌, Bool, true, false, ◌||◌, Option, none, some, [], arith, ◌==◌, length,
  is_some, contains, distinct, if◌then◌else◌, Bool-cases, inl, inr,
}
use mathlib.Core.Path.{subst⁻¹}
use verified_concurrent.Base.Maps.{Map, lookup, insert, lookup-insert, lookup-fill}
use verified_concurrent.TreiberModel.State.{
  Node, ThreadState, idle, push_allocated, push_read_head, pop_read_head, StackState, init, below,
}
use verified_concurrent.TreiberModel.Actions.{pushing}
use verified_concurrent.TreiberModel.Chain.{Cells, Chain, values, on_list}

abbrev pub node_value : Option Node → Option ℕ
node_value none = none
node_value (some n) = some n.value

-- What the local state of a thread says about the shared state.
abbrev pub Local : StackState → Cells → Option ThreadState → Type 0
Local s cs (some (push_allocated i v)) =
    (on_list i cs ≡ false)
    × (contains v s.pushed ≡ false)
    × (node_value (lookup i s.nodes) ≡ some v)
Local s cs (some (push_read_head i v o)) =
    (on_list i cs ≡ false)
    × (contains v s.pushed ≡ false)
    × (lookup i s.nodes ≡ some (record { value = v; next = o }))
Local s cs (some (pop_read_head i v o)) = lookup i s.nodes ≡ some (record { value = v; next = o })
Local s cs _ = Unit

-- The node that a thread read as the head for a pop.
abbrev pub popping : Option ThreadState → Option ℕ
popping (some (pop_read_head i v o)) = some i
popping _ = none

pub record Inv (s : StackState) (cs : Cells) : Type 0 where
  pub chain : Chain s.nodes s.head cs
  pub fresh : (i : ℕ) → is_some (lookup i s.nodes) ≡ true → i < s.node_id_next
  pub own : (t : ℕ) → Local s cs (lookup t s.threads)
  pub lone :
      (t u i v j w : ℕ)
      → t ≢ u
      → pushing (lookup t s.threads) ≡ some (i, v)
      → pushing (lookup u s.threads) ≡ some (j, w)
      → (i ≢ j) × (v ≢ w)
  pub seen :
      (t u i v j : ℕ)
      → pushing (lookup t s.threads) ≡ some (i, v)
      → popping (lookup u s.threads) ≡ some j
      → i ≢ j
  pub same : (v : ℕ) → contains v s.pushed ≡ (contains v (values cs) || contains v s.popped)
  pub unique : distinct (values cs) ≡ true
  pub small : length cs ≤ length s.pushed

idle_Local : (s : StackState) (cs : Cells) (b : Bool) → Local s cs (if b then some idle else none)
idle_Local s cs true = tt
idle_Local s cs false = tt

pub Inv-init : (n : ℕ) → Inv (init n) []
unfolding init contains distinct
Inv-init n = record {
  chain = refl;
  fresh = λ i h. absurd (unfold lookup in ground arith);
  own = λ t.
      subst⁻¹ (Local (init n) []) (lookup-fill idle t (below n))
        (idle_Local (init n) [] (contains t (below n)));
  lone = λ t u i v j w ne p q. absurd (ground (arith, lookup-fill idle t (below n)));
  seen = λ t u i v j p q. absurd (ground (arith, lookup-fill idle t (below n)));
  same = λ v. refl;
  unique = refl;
  small = omega arith;
}

-- A property of every thread, when one thread moves.
pub after_insert :
    (P : Option ThreadState → Type 0) (t u : ℕ) (st : ThreadState) (m : Map ThreadState)
    → P (some st)
    → P (lookup u m)
    → P (lookup u (insert t st m))
after_insert P t u st m p q = elim (Bool-cases (u == t)) [
  | inl e ↦ rw (lookup-insert t u st m, e) p
  | inr e ↦ rw (lookup-insert t u st m, e) q
]

-- The local state of a thread stays right where the nodes that it names are left alone.
pub Local-frame :
    (s s' : StackState) (cs cs' : Cells) (st : Option ThreadState)
    → ((i v : ℕ)
        → pushing st ≡ some (i, v)
        → on_list i cs ≡ false
        → contains v s.pushed ≡ false
        → is_some (lookup i s.nodes) ≡ true
        → (on_list i cs' ≡ false)
          × (contains v s'.pushed ≡ false)
          × (lookup i s'.nodes ≡ lookup i s.nodes))
    → ((i : ℕ)
        → popping st ≡ some i
        → is_some (lookup i s.nodes) ≡ true
        → lookup i s'.nodes ≡ lookup i s.nodes)
    → Local s cs st
    → Local s' cs' st
Local-frame s s' cs cs' none p q l = tt
Local-frame s s' cs cs' (some idle) p q l = tt
Local-frame s s' cs cs' (some (push_allocated i v)) p q l =
    let (a, b, c) = p i v refl l.0 l.1 (ground arith) in (a, b, ground arith)
Local-frame s s' cs cs' (some (push_read_head i v o)) p q l =
    let (a, b, c) = p i v refl l.0 l.1 (ground arith) in (a, b, ground arith)
Local-frame s s' cs cs' (some (pop_read_head i v o)) p q l =
    let c = q i refl (ground arith) in ground arith

-- What a thread is about to push is off the list, not yet pushed, and allocated.
pub pushing-Local :
    (s : StackState) (cs : Cells) (st : Option ThreadState) (i v : ℕ)
    → pushing st ≡ some (i, v)
    → Local s cs st
    → (on_list i cs ≡ false)
      × (contains v s.pushed ≡ false)
      × (node_value (lookup i s.nodes) ≡ some v)
pushing-Local s cs none i v p l = absurd (ground arith)
pushing-Local s cs (some idle) i v p l = absurd (ground arith)
pushing-Local s cs (some (push_allocated j w)) i v p l = ground arith
pushing-Local s cs (some (push_read_head j w o)) i v p l = ground arith
pushing-Local s cs (some (pop_read_head j w o)) i v p l = absurd (ground arith)

-- What a thread has read as the head is allocated.
pub popping-Local :
    (s : StackState) (cs : Cells) (st : Option ThreadState) (i : ℕ)
    → popping st ≡ some i
    → Local s cs st
    → is_some (lookup i s.nodes) ≡ true
popping-Local s cs none i p l = absurd (ground arith)
popping-Local s cs (some idle) i p l = absurd (ground arith)
popping-Local s cs (some (push_allocated j w)) i p l = absurd (ground arith)
popping-Local s cs (some (push_read_head j w o)) i p l = absurd (ground arith)
popping-Local s cs (some (pop_read_head j w o)) i p l = ground arith
