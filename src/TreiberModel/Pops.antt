-- ===== src/TreiberModel/Pops.antt =====
-- The steps of a pop in the Treiber stack model (crates/vf-stateright/src/treiber_stack.rs) keep
-- the invariant.
use verified_concurrent.Base.{
  ℕ, ◌≡◌, refl, true, Option, some, [], ◌∷◌, arith, contains, distinct, ◌⊎◌,
}
use verified_concurrent.Base.Sets.{set_insert, contains-set_insert}
use verified_concurrent.Base.Maps.{Map, lookup, insert, lookup-insert}
use verified_concurrent.TreiberModel.State.{Node, idle, pop_read_head, StackState}
use verified_concurrent.TreiberModel.Actions.{pushing}
use verified_concurrent.TreiberModel.Chain.{Cells, Chain, on_list}
use verified_concurrent.TreiberModel.Invariant.{
  Local, popping, Inv, after_insert, Local-frame, pushing-Local,
}

-- The first cell of a list that is not empty.
head_on_list :
    (m : Map Node) (o : Option ℕ) (cs : Cells) (i : ℕ)
    → Chain m o cs
    → o ≡ some i
    → on_list i cs ≡ true
head_on_list m o [] i c e = absurd (ground arith)
head_on_list m o ((j, v) ∷ cs) i (f, next, g, c) e = ground arith

-- `PopReadHead` of an idle thread.
module _ {s : StackState} {cs : Cells} (h : Inv s cs) (t i : ℕ) (n : Node)
    (at_head : s.head ≡ some i) (is_node : lookup i s.nodes ≡ some n) where
  open h use {chain, fresh, own, lone, seen, same, unique, small}

  abbrev noted : StackState
  noted = record s { threads = insert t (pop_read_head i n.value n.next) s.threads }

  noted_pushing :
      (u j w : ℕ)
      → pushing (lookup u noted.threads) ≡ some (j, w)
      → pushing (lookup u s.threads) ≡ some (j, w)
  noted_pushing u j w p =
      ground (arith, lookup-insert t u (pop_read_head i n.value n.next) s.threads)

  noted_popping :
      (u j : ℕ)
      → popping (lookup u noted.threads) ≡ some j
      → (j ≡ i) ⊎ (popping (lookup u s.threads) ≡ some j)
  noted_popping u j p = ground (arith, lookup-insert t u (pop_read_head i n.value n.next) s.threads)

  pub noted-Inv : Inv noted cs
  noted-Inv = record {
    chain = chain;
    fresh = fresh;
    own = λ u.
        after_insert (Local noted cs) t u (pop_read_head i n.value n.next) s.threads is_node (
          Local-frame s noted cs cs (lookup u s.threads) (λ j w p off c k. (off, c, refl))
            (λ j p k. refl) (own u));
    lone =
        λ a b j x k y ne p q. lone a b j x k y ne (noted_pushing a j x p) (noted_pushing b k y q);
    seen = λ a b j x k p q.
        let f = pushing-Local s cs (lookup a s.threads) j x (noted_pushing a j x p) (own a) in
        ground (
          arith,
          noted_pushing a j x p,
          noted_popping b k q,
          seen a b j x k,
          head_on_list s.nodes s.head cs i chain at_head,
        );
    same = same;
    unique = unique;
    small = small;
  }

-- `PopCas` of a thread that read the present head: its cell leaves the list.
module _ {s : StackState} {i v : ℕ} {cs : Cells} (h : Inv s ((i, v) ∷ cs)) (t : ℕ) (o : Option ℕ)
    (mine : lookup t s.threads ≡ some (pop_read_head i v o)) where
  open h use {chain, fresh, own, lone, seen, same, unique, small}

  abbrev taken : StackState
  taken = record s { head = o; popped = set_insert v s.popped; threads = insert t idle s.threads }

  taken-Chain : Chain s.nodes o cs
  taken-Chain = let (e, next, f, c) = chain in ground (arith, own t)

  taken_pushing :
      (u j w : ℕ)
      → pushing (lookup u taken.threads) ≡ some (j, w)
      → pushing (lookup u s.threads) ≡ some (j, w)
  taken_pushing u j w p = ground (arith, lookup-insert t u idle s.threads)

  taken_popping :
      (u j : ℕ) → popping (lookup u taken.threads) ≡ some j → popping (lookup u s.threads) ≡ some j
  taken_popping u j p = ground (arith, lookup-insert t u idle s.threads)

  pub taken-Inv : Inv taken cs
  unfolding contains distinct
  taken-Inv = record {
    chain = taken-Chain;
    fresh = fresh;
    own = λ u. after_insert (Local taken cs) t u idle s.threads tt (
        Local-frame s taken ((i, v) ∷ cs) cs (lookup u s.threads)
          (λ j w p off c k. (ground arith, c, refl)) (λ j p k. refl) (own u));
    lone =
        λ a b j x k y ne p q. lone a b j x k y ne (taken_pushing a j x p) (taken_pushing b k y q);
    seen = λ a b j x k p q. seen a b j x k (taken_pushing a j x p) (taken_popping b k q);
    same = λ w. ground (arith, contains-set_insert v s.popped w, same w);
    unique = ground (arith, unique);
    small = omega (arith, small);
  }

-- `PopCas` of a thread whose view of the head is out of date: it gives up.
module _ {s : StackState} {cs : Cells} (h : Inv s cs) (t : ℕ) where
  open h use {chain, fresh, own, lone, seen, same, unique, small}

  abbrev missed : StackState
  missed = record s { threads = insert t idle s.threads }

  missed_pushing :
      (u j w : ℕ)
      → pushing (lookup u missed.threads) ≡ some (j, w)
      → pushing (lookup u s.threads) ≡ some (j, w)
  missed_pushing u j w p = ground (arith, lookup-insert t u idle s.threads)

  missed_popping :
      (u j : ℕ) → popping (lookup u missed.threads) ≡ some j → popping (lookup u s.threads) ≡ some j
  missed_popping u j p = ground (arith, lookup-insert t u idle s.threads)

  pub missed-Inv : Inv missed cs
  missed-Inv = record {
    chain = chain;
    fresh = fresh;
    own = λ u. after_insert (Local missed cs) t u idle s.threads tt (
        Local-frame s missed cs cs (lookup u s.threads) (λ j w p off c k. (off, c, refl))
          (λ j p k. refl) (own u));
    lone =
        λ a b j x k y ne p q. lone a b j x k y ne (missed_pushing a j x p) (missed_pushing b k y q);
    seen = λ a b j x k p q. seen a b j x k (missed_pushing a j x p) (missed_popping b k q);
    same = same;
    unique = unique;
    small = small;
  }
