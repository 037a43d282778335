-- ===== src/SsiModel/Effects.antt =====
-- What each branch of `SsiState::apply` (crates/vf-stateright/src/ssi.rs) does to the status and the
-- flags of one transaction, to the holder of one lock and to the readers of one key.
use mathlib.Core.Option
use verified_concurrent.Base.{
  ℕ, ◌≡◌, refl, Bool, true, false, ◌&&◌, ◌||◌, not, Option, none, some, List, [], ◌∷◌, arith, ◌==◌,
  same_option, if◌then◌else◌, flatten, is_empty, contains, unwrap_or, Option-cases, inl, inr,
}
use verified_concurrent.Base.Sets.{set_insert, set_remove, contains-set_insert, contains-set_remove}
use verified_concurrent.Base.Maps.{
  Map, lookup, insert, get_or, map_values, lookup-insert, lookup-map_values,
}
use verified_concurrent.SsiModel.State.{
  active, committed, aborted, AbortReason, write_conflict, SsiState,
}
use verified_concurrent.SsiModel.Queries.{status_of, in_flag, out_flag, lock_holder}
use verified_concurrent.SsiModel.Apply.{
  set_flags, set_flag_if_any, abort_with, release_lock, release_locks, perform_begin, perform_read,
  abort_write, perform_write, perform_commit,
}

lookup-set_flags :
    (ts : List ℕ) (m : Map Bool) (t : ℕ)
    → lookup t (set_flags ts m) ≡ (if contains t ts then some true else lookup t m)
unfolding set_flags contains
lookup-set_flags [] m t = refl
lookup-set_flags (u ∷ ts) m t =
    ground (arith, lookup-set_flags ts (insert u true m) t, lookup-insert u t true m)

get_or-set_flags :
    (ts : List ℕ) (m : Map Bool) (t : ℕ)
    → get_or false t (set_flags ts m) ≡ (contains t ts || get_or false t m)
get_or-set_flags ts m t = ground (arith, lookup-set_flags ts m t)

get_or-set_flag_if_any :
    (ts : List ℕ) (u : ℕ) (m : Map Bool) (t : ℕ)
    → get_or false t (set_flag_if_any ts u m)
      ≡ ((not (is_empty ts) && (t == u)) || get_or false t m)
unfolding set_flag_if_any
get_or-set_flag_if_any ts u m t = ground (arith, lookup-insert u t true m)

-- Statuses

pub status-perform_begin :
    (s : SsiState) (u t : ℕ)
    → status_of (perform_begin s u) t ≡ (if t == u then active else status_of s t)
unfolding perform_begin status_of
status-perform_begin s u t = ground (arith, lookup-insert u t active s.txn_status)

pub status-abort_with :
    (why : AbortReason) (s : SsiState) (u t : ℕ)
    → status_of (abort_with why u s) t ≡ (if t == u then aborted else status_of s t)
unfolding abort_with status_of
status-abort_with why s u t = ground (arith, lookup-insert u t aborted s.txn_status)

pub status-abort_write :
    (s : SsiState) (u key t : ℕ)
    → status_of (abort_write s u key) t ≡ (if t == u then aborted else status_of s t)
unfolding abort_write status_of abort_with
status-abort_write s u key t = ground (arith, lookup-insert u t aborted s.txn_status)

pub status-perform_commit :
    (s : SsiState) (u t : ℕ)
    → status_of (perform_commit s u) t ≡ (if t == u then committed else status_of s t)
unfolding perform_commit release_locks status_of
status-perform_commit s u t = ground (arith, lookup-insert u t committed s.txn_status)

pub status-release_locks :
    (s : SsiState) (u t : ℕ) → status_of (release_locks u s) t ≡ status_of s t
unfolding release_locks status_of
status-release_locks s u t = refl

pub status-perform_read :
    (s : SsiState) (u key : ℕ) (ws : List ℕ) (t : ℕ)
    → status_of (perform_read s u key ws) t ≡ status_of s t
unfolding perform_read status_of
status-perform_read s u key ws t = refl

pub status-perform_write :
    (s : SsiState) (u key : ℕ) (rs : List ℕ) (t : ℕ)
    → status_of (perform_write s u key rs) t ≡ status_of s t
unfolding perform_write status_of
status-perform_write s u key rs t = refl

-- Flags: the pair of a transaction's two flags

abbrev pub flags : SsiState → ℕ → Bool × Bool
flags s t = (in_flag s t, out_flag s t)

pub flags-perform_begin : (s : SsiState) (u t : ℕ) → flags (perform_begin s u) t ≡ flags s t
unfolding perform_begin in_flag out_flag
flags-perform_begin s u t = refl

pub flags-abort_with :
    (why : AbortReason) (s : SsiState) (u t : ℕ)
    → flags (abort_with why u s) t ≡ (if t == u then (false, false) else flags s t)
unfolding abort_with in_flag out_flag
flags-abort_with why s u t =
    ground (arith, lookup-insert u t false s.in_conflict, lookup-insert u t false s.out_conflict)

pub flags-abort_write :
    (s : SsiState) (u key t : ℕ)
    → flags (abort_write s u key) t ≡ (if t == u then (false, false) else flags s t)
unfolding abort_write abort_with in_flag out_flag
flags-abort_write s u key t =
    ground (arith, lookup-insert u t false s.in_conflict, lookup-insert u t false s.out_conflict)

pub flags-release_locks : (s : SsiState) (u t : ℕ) → flags (release_locks u s) t ≡ flags s t
unfolding release_locks in_flag out_flag
flags-release_locks s u t = refl

pub flags-perform_commit : (s : SsiState) (u t : ℕ) → flags (perform_commit s u) t ≡ flags s t
unfolding perform_commit release_locks in_flag out_flag
flags-perform_commit s u t = refl

pub flags-perform_read :
    (s : SsiState) (u key : ℕ) (ws : List ℕ) (t : ℕ)
    → flags (perform_read s u key ws) t
      ≡ (contains t ws || in_flag s t, (not (is_empty ws) && (t == u)) || out_flag s t)
unfolding perform_read in_flag out_flag
flags-perform_read s u key ws t =
    ground
      (arith, get_or-set_flags ws s.in_conflict t, get_or-set_flag_if_any ws u s.out_conflict t)

pub flags-perform_write :
    (s : SsiState) (u key : ℕ) (rs : List ℕ) (t : ℕ)
    → flags (perform_write s u key rs) t
      ≡ ((not (is_empty rs) && (t == u)) || in_flag s t, contains t rs || out_flag s t)
unfolding perform_write in_flag out_flag
flags-perform_write s u key rs t =
    ground
      (arith, get_or-set_flags rs s.out_conflict t, get_or-set_flag_if_any rs u s.in_conflict t)

-- Locks

pub lock-perform_begin :
    (s : SsiState) (u k : ℕ) → lock_holder (perform_begin s u) k ≡ lock_holder s k
unfolding perform_begin lock_holder
lock-perform_begin s u k = refl

pub lock-perform_read :
    (s : SsiState) (u key : ℕ) (ws : List ℕ) (k : ℕ)
    → lock_holder (perform_read s u key ws) k ≡ lock_holder s k
unfolding perform_read lock_holder
lock-perform_read s u key ws k = refl

pub lock-abort_with :
    (why : AbortReason) (s : SsiState) (u key : ℕ)
    → lock_holder (abort_with why u s) key ≡ lock_holder s key
unfolding abort_with lock_holder
lock-abort_with why s u key = refl

flatten-release :
    (u key : ℕ) (m : Map (Option ℕ))
    → flatten (lookup key (map_values (release_lock u) m))
      ≡ (if same_option (flatten (lookup key m)) (some u) then none else flatten (lookup key m))
unfolding release_lock
flatten-release u key m = elim (Option-cases (lookup key m)) [
  | inl e ↦ rw (lookup-map_values (release_lock u) key m, e)
  | inr (l, e) ↦ rw (lookup-map_values (release_lock u) key m, e)
]

pub lock-release_locks :
    (s : SsiState) (u key : ℕ)
    → lock_holder (release_locks u s) key
      ≡ (if same_option (lock_holder s key) (some u) then none else lock_holder s key)
unfolding release_locks lock_holder
lock-release_locks s u key = flatten-release u key s.write_locks

pub lock-perform_commit :
    (s : SsiState) (u key : ℕ)
    → lock_holder (perform_commit s u) key
      ≡ (if same_option (lock_holder s key) (some u) then none else lock_holder s key)
unfolding perform_commit release_locks lock_holder
lock-perform_commit s u key = flatten-release u key s.write_locks

pub lock-abort_write :
    (s : SsiState) (u key k : ℕ)
    → lock_holder (abort_write s u key) k
      ≡ (if k == key && same_option (lock_holder s key) (some u) then none else lock_holder s k)
unfolding abort_write abort_with lock_holder
lock-abort_write s u key k = ground (arith, lookup-insert key k none s.write_locks)

pub lock-perform_write :
    (s : SsiState) (u key : ℕ) (rs : List ℕ) (k : ℕ)
    → lock_holder (perform_write s u key rs) k ≡ (if k == key then some u else lock_holder s k)
unfolding perform_write lock_holder
lock-perform_write s u key rs k = ground (arith, lookup-insert key k (some u) s.write_locks)

-- Readers: whether a transaction holds the SIREAD lock of a key

unfoldable pub holds_siread : SsiState → ℕ → ℕ → Bool
holds_siread s k t = contains t (get_or [] k s.siread_locks)

contains-unwrap-map :
    (u t : ℕ) (o : Option (List ℕ))
    → contains t (unwrap_or [] (Option.map (set_remove u) o))
      ≡ (contains t (unwrap_or [] o) && not (t == u))
unfolding contains
contains-unwrap-map u t none = refl
contains-unwrap-map u t (some xs) = contains-set_remove u xs t

pub siread-abort_with :
    (why : AbortReason) (s : SsiState) (u k t : ℕ)
    → holds_siread (abort_with why u s) k t ≡ (holds_siread s k t && not (t == u))
unfolding abort_with holds_siread
siread-abort_with why s u k t =
    rw (lookup-map_values (set_remove u) k s.siread_locks)
      (contains-unwrap-map u t (lookup k s.siread_locks))

pub siread-abort_write :
    (s : SsiState) (u key k t : ℕ)
    → holds_siread (abort_write s u key) k t ≡ (holds_siread s k t && not (t == u))
unfolding abort_write holds_siread
siread-abort_write s u key k t = ground (arith, siread-abort_with write_conflict s u k t)

pub siread-perform_read :
    (s : SsiState) (u key : ℕ) (ws : List ℕ) (k t : ℕ)
    → holds_siread (perform_read s u key ws) k t ≡ ((k == key && (t == u)) || holds_siread s k t)
unfolding perform_read holds_siread
siread-perform_read s u key ws k t = ground (
  arith,
  lookup-insert key k (set_insert u (get_or [] key s.siread_locks)) s.siread_locks,
  contains-set_insert u (get_or [] key s.siread_locks) t,
)
