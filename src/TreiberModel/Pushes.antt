-- ===== src/TreiberModel/Pushes.antt =====
-- The steps of a push in the Treiber stack model (crates/vf-stateright/src/treiber_stack.rs) keep
-- the invariant.
use verified_concurrent.Base.{
  ℕ, ◌≡◌, refl, ◌≢◌, true, false, Option, none, some, ◌∷◌, arith, ◌==◌, is_some, contains, distinct,
  Bool-cases, inl, inr, ◌⊎◌,
}
use verified_concurrent.Base.Sets.{set_insert, contains-set_insert}
use verified_concurrent.Base.Maps.{lookup, insert, lookup-insert}
use verified_concurrent.TreiberModel.State.{Node, idle, push_allocated, push_read_head, StackState}
use verified_concurrent.TreiberModel.Actions.{pushing, alloc_node}
use verified_concurrent.TreiberModel.Chain.{
  Cells, on_list, Chain-insert, on_list-lookup, length-set_insert,
}
use verified_concurrent.TreiberModel.Invariant.{
  node_value, Local, popping, Inv, after_insert, Local-frame, pushing-Local, popping-Local,
}

-- `PushAlloc` by an idle thread, of a value that is neither pushed nor in flight.
module _ {s : StackState} {cs : Cells} (h : Inv s cs) (t v : ℕ)
    (is_idle : lookup t s.threads ≡ some idle) (new : contains v s.pushed ≡ false)
    (unclaimed : (u j w : ℕ) → pushing (lookup u s.threads) ≡ some (j, w) → v ≢ w) where
  open h use {chain, fresh, own, lone, seen, same, unique, small}

  abbrev n : ℕ
  n = s.node_id_next

  fresh_off_list : on_list n cs ≡ false
  fresh_off_list = ground (arith, on_list-lookup s.nodes s.head cs n chain, fresh n)

  fresh_node :
      (i : ℕ)
      → is_some (lookup i s.nodes) ≡ true
      → lookup i (alloc_node s t v).nodes ≡ lookup i s.nodes
  unfolding alloc_node
  fresh_node i k =
      ground (arith, fresh i k, lookup-insert n i (record { value = v; next = none }) s.nodes)

  alloc_own : (u : ℕ) → Local (alloc_node s t v) cs (lookup u (alloc_node s t v).threads)
  unfolding alloc_node
  alloc_own u =
      after_insert (Local (alloc_node s t v) cs) t u (push_allocated n v) s.threads
        (
          fresh_off_list,
          new,
          ground (arith, lookup-insert n n (record { value = v; next = none }) s.nodes),
        )
        (Local-frame s (alloc_node s t v) cs cs (lookup u s.threads)
          (λ i w p o c k. (o, c, fresh_node i k)) (λ i p k. fresh_node i k) (own u))

  -- A thread in flight after the step is the one that moved or was in flight before.
  alloc_pushing :
      (u i w : ℕ)
      → pushing (lookup u (alloc_node s t v).threads) ≡ some (i, w)
      → (u ≡ t) × (i ≡ n) × (w ≡ v) ⊎ (pushing (lookup u s.threads) ≡ some (i, w))
  unfolding alloc_node
  alloc_pushing u i w p = ground (arith, lookup-insert t u (push_allocated n v) s.threads)

  alloc_popping :
      (u i : ℕ)
      → popping (lookup u (alloc_node s t v).threads) ≡ some i
      → popping (lookup u s.threads) ≡ some i
  unfolding alloc_node
  alloc_popping u i p = ground (arith, lookup-insert t u (push_allocated n v) s.threads)

  claimed_below : (u i w : ℕ) → pushing (lookup u s.threads) ≡ some (i, w) → i ≢ n
  claimed_below u i w p e =
      let f = pushing-Local s cs (lookup u s.threads) i w p (own u) in ground (arith, fresh i)

  pub alloc-Inv : Inv (alloc_node s t v) cs
  unfolding alloc_node
  alloc-Inv = record {
    chain =
        Chain-insert s.nodes s.head cs n (record { value = v; next = none }) fresh_off_list chain;
    fresh = λ i k.
        ground (arith, lookup-insert n i (record { value = v; next = none }) s.nodes, fresh i);
    own = alloc_own;
    lone = λ a b i x j y ne p q. ground (
      arith,
      alloc_pushing a i x p,
      alloc_pushing b j y q,
      lone a b i x j y ne,
      claimed_below a i x,
      claimed_below b j y,
      unclaimed a i x,
      unclaimed b j y,
    );
    seen = λ a b i x j p q. ground (
      arith,
      alloc_pushing a i x p,
      alloc_popping b j q,
      seen a b i x j,
      popping-Local s cs (lookup b s.threads) j,
      own b,
      fresh j,
    );
    same = same;
    unique = unique;
    small = small;
  }

-- `PushReadHead`: the node of the thread, which is off the list, gets the head as its successor.
module _ {s : StackState} {cs : Cells} (h : Inv s cs) (t i v : ℕ)
    (mine : lookup t s.threads ≡ some (push_allocated i v)) where
  open h use {chain, fresh, own, lone, seen, same, unique, small}

  abbrev linked : Node
  linked = record { value = v; next = s.head }

  abbrev read : StackState
  read = record s {
    nodes = insert i linked s.nodes;
    threads = insert t (push_read_head i v s.head) s.threads;
  }

  mine_Local :
      (on_list i cs ≡ false)
      × (contains v s.pushed ≡ false)
      × (node_value (lookup i s.nodes) ≡ some v)
  mine_Local = ground (arith, own t)

  read_pushing :
      (u j w : ℕ)
      → pushing (lookup u read.threads) ≡ some (j, w)
      → pushing (lookup u s.threads) ≡ some (j, w)
  read_pushing u j w p = ground (arith, lookup-insert t u (push_read_head i v s.head) s.threads)

  read_popping :
      (u j : ℕ) → popping (lookup u read.threads) ≡ some j → popping (lookup u s.threads) ≡ some j
  read_popping u j p = ground (arith, lookup-insert t u (push_read_head i v s.head) s.threads)

  read_own : (u : ℕ) → Local read cs (lookup u read.threads)
  read_own u = elim (Bool-cases (u == t)) [
    | inl e ↦
        rw (lookup-insert t u (push_read_head i v s.head) s.threads, e)
          (mine_Local.0, mine_Local.1, ground (arith, lookup-insert i i linked s.nodes))
    | inr e ↦
        rw (lookup-insert t u (push_read_head i v s.head) s.threads, e)
          (Local-frame s read cs cs (lookup u s.threads)
            (λ j w p o c k.
              (o, c, ground (arith, lone u t j w i v, lookup-insert i j linked s.nodes)))
            (λ j p k. ground (arith, seen t u i v j, lookup-insert i j linked s.nodes)) (own u))
  ]

  pub read-Inv : Inv read cs
  read-Inv = record {
    chain = Chain-insert s.nodes s.head cs i linked mine_Local.0 chain;
    fresh = λ j k. ground (arith, mine_Local.2, lookup-insert i j linked s.nodes, fresh j, fresh i);
    own = read_own;
    lone = λ a b j x k y ne p q. lone a b j x k y ne (read_pushing a j x p) (read_pushing b k y q);
    seen = λ a b j x k p q. seen a b j x k (read_pushing a j x p) (read_popping b k q);
    same = same;
    unique = unique;
    small = small;
  }

-- `PushCas` of a thread that read the present head: its cell becomes the first of the list.
module _ {s : StackState} {cs : Cells} (h : Inv s cs) (t i v : ℕ)
    (mine : lookup t s.threads ≡ some (push_read_head i v s.head)) where
  open h use {chain, fresh, own, lone, seen, same, unique, small}

  abbrev swung : StackState
  swung = record s {
    head = some i;
    pushed = set_insert v s.pushed;
    threads = insert t idle s.threads;
  }

  swung_Local :
      (on_list i cs ≡ false)
      × (contains v s.pushed ≡ false)
      × (lookup i s.nodes ≡ some (record { value = v; next = s.head }))
  swung_Local = ground (arith, own t)

  swung_pushing :
      (u j w : ℕ)
      → pushing (lookup u swung.threads) ≡ some (j, w)
      → (u ≢ t) × (pushing (lookup u s.threads) ≡ some (j, w))
  swung_pushing u j w p = ground (arith, lookup-insert t u idle s.threads)

  swung_popping :
      (u j : ℕ) → popping (lookup u swung.threads) ≡ some j → popping (lookup u s.threads) ≡ some j
  swung_popping u j p = ground (arith, lookup-insert t u idle s.threads)

  swung_own : (u : ℕ) → Local swung ((i, v) ∷ cs) (lookup u swung.threads)
  swung_own u = elim (Bool-cases (u == t)) [
    | inl e ↦ rw (lookup-insert t u idle s.threads, e) tt
    | inr e ↦
        rw (lookup-insert t u idle s.threads, e)
          (Local-frame s swung cs ((i, v) ∷ cs) (lookup u s.threads)
            (λ j w p o c k. (
              ground (arith, lone u t j w i v),
              ground (arith, lone u t j w i v, contains-set_insert v s.pushed w),
              refl,
            ))
            (λ j p k. refl) (own u))
  ]

  pub swung-Inv : Inv swung ((i, v) ∷ cs)
  unfolding contains distinct
  swung-Inv = record {
    chain = (refl, s.head, swung_Local.2, chain);
    fresh = fresh;
    own = swung_own;
    lone = λ a b j x k y ne p q.
        lone a b j x k y ne (swung_pushing a j x p).1 (swung_pushing b k y q).1;
    seen = λ a b j x k p q. seen a b j x k (swung_pushing a j x p).1 (swung_popping b k q);
    same = λ w. ground (arith, contains-set_insert v s.pushed w, same w);
    unique = ground (arith, unique, same v, swung_Local.1);
    small = omega (arith, length-set_insert v s.pushed swung_Local.1);
  }

-- `PushCas` of a thread whose view of the head is out of date: it goes back to read it again.
module _ {s : StackState} {cs : Cells} (h : Inv s cs) (t i v : ℕ) (o : Option ℕ)
    (mine : lookup t s.threads ≡ some (push_read_head i v o)) where
  open h use {chain, fresh, own, lone, seen, same, unique, small}

  abbrev retried : StackState
  retried = record s { threads = insert t (push_allocated i v) s.threads }

  retried_pushing :
      (u j w : ℕ)
      → pushing (lookup u retried.threads) ≡ some (j, w)
      → pushing (lookup u s.threads) ≡ some (j, w)
  retried_pushing u j w p = ground (arith, lookup-insert t u (push_allocated i v) s.threads)

  retried_popping :
      (u j : ℕ)
      → popping (lookup u retried.threads) ≡ some j
      → popping (lookup u s.threads) ≡ some j
  retried_popping u j p = ground (arith, lookup-insert t u (push_allocated i v) s.threads)

  pub retried-Inv : Inv retried cs
  retried-Inv = record {
    chain = chain;
    fresh = fresh;
    own = λ u.
        after_insert (Local retried cs) t u (push_allocated i v) s.threads (ground (arith, own t)) (
          Local-frame s retried cs cs (lookup u s.threads) (λ j w p off c k. (off, c, refl))
            (λ j p k. refl) (own u));
    lone = λ a b j x k y ne p q.
        lone a b j x k y ne (retried_pushing a j x p) (retried_pushing b k y q);
    seen = λ a b j x k p q. seen a b j x k (retried_pushing a j x p) (retried_popping b k q);
    same = same;
    unique = unique;
    small = small;
  }
