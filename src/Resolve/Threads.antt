-- ===== src/Resolve/Threads.antt =====
-- resolve.rs: `resolved` in several threads. The two mutexes are owned by one thread at a time. The guard of
-- `L1` lives to the end of the hot path, which takes `L2` while it has `L1`; the cold path has one of them at
-- a time. A panic under a guard poisons its mutex, and `lock().unwrap()` panics from then on.
pub mod Guards
pub mod Moves
pub mod Safe
pub mod Progress
pub mod Done
use bilbo.Base.{
  ℕ, zero, suc, ◌+◌, ◌≤◌, ◌<◌, ◌≡◌, Bool, true, false, Option, none, some, List, [], ◌∷◌, ◌==◌,
  if◌then◌else◌, Outcome, ok, panic, fault, out_of_fuel,
}
use bilbo.Dwarf.Index.{Site}
use bilbo.Platform.{Caller}
use bilbo.Resolve.{Resolved, Caches, find_l1, find_l2, Process, type_key, classified}

-- A call of `resolved`: the call site, what unwinding gives, and the pointer.
pub record Call : Type 0 where
  pub site : ℕ
  pub caller : Outcome Caller
  pub ptr : ℕ

-- Where a thread stands in `resolved`: before the lookup in `L1`; with `L1`, before that in `L2`; before the
-- walk; before it takes `L2`; with `L2`, before `classify`; before it takes `L1` to insert.
pub data Pc {ℓ} (E : Type ℓ) : Type ℓ where
  start : Pc E
  hit : Site → Pc E
  miss : Pc E
  keyed : Site → Pc E
  making : Site → Pc E
  stored : Site → Resolved E → Pc E
  done : Site → Resolved E → Pc E
  panicked : Pc E

-- The caches, who has a mutex, and whether it is poisoned.
pub record Shared {ℓ} (E : Type ℓ) : Type ℓ where
  pub l1 : List (ℕ × Site)
  pub l2 : List (Site × Resolved E)
  pub owner1 : Option ℕ
  pub owner2 : Option ℕ
  pub poison1 : Bool
  pub poison2 : Bool

-- `u` once a free mutex is taken, `v` where it is poisoned; no move where another thread has it.
abbrev pub locked {ℓ} : {A : Type ℓ} → Option ℕ → (poison : Bool) → (v u : A) → Option A
locked (some i) poison v u = none
locked none true v u = some v
locked none false v u = some u

-- Where the outcome is a result, and otherwise.
abbrev pub on_ok {ℓ κ} : {A : Type ℓ} {B : Type κ} → Outcome A → (A → B) → B → B
on_ok (ok a) next last = next a
on_ok panic next last = last
on_ok fault next last = last
on_ok out_of_fuel next last = last

module _ {ℓ} {E : Type ℓ} where
  -- The guard of `L1` is dropped.
  abbrev pub unlock1 : (poison : Bool) → Shared E → Shared E
  unlock1 poison s = record {
    l1 = s.l1;
    l2 = s.l2;
    owner1 = none;
    owner2 = s.owner2;
    poison1 = poison;
    poison2 = s.poison2;
  }

  abbrev pub lock1 : ℕ → Shared E → Shared E
  lock1 i s = record {
    l1 = s.l1;
    l2 = s.l2;
    owner1 = some i;
    owner2 = s.owner2;
    poison1 = s.poison1;
    poison2 = s.poison2;
  }

  abbrev pub lock2 : ℕ → Shared E → Shared E
  lock2 i s = record {
    l1 = s.l1;
    l2 = s.l2;
    owner1 = s.owner1;
    owner2 = some i;
    poison1 = s.poison1;
    poison2 = s.poison2;
  }

  abbrev pub unlock2 : (poison : Bool) → List (Site × Resolved E) → Shared E → Shared E
  unlock2 poison l2 s = record {
    l1 = s.l1;
    l2 = l2;
    owner1 = s.owner1;
    owner2 = none;
    poison1 = s.poison1;
    poison2 = poison;
  }

  abbrev pub insert1 : ℕ → Site → Shared E → Shared E
  insert1 pc tk s = record {
    l1 = (pc, tk) ∷ s.l1;
    l2 = s.l2;
    owner1 = s.owner1;
    owner2 = s.owner2;
    poison1 = s.poison1;
    poison2 = s.poison2;
  }

  module _ (p : Process) where
    -- `l1.lock().unwrap().get(&pc)`.
    unfoldable pub look_up : ℕ → Call → Shared E → Shared E × Pc E
    look_up i c s = elim (find_l1 c.site s.l1) [ some tk ↦ (lock1 i s, hit tk) | none ↦ (s, miss) ]

    -- `l2.lock().unwrap().get(&tk).expect("L2 present")`, with `L1`.
    unfoldable pub answer : Site → Shared E → Shared E × Pc E
    answer tk s = elim (find_l2 tk s.l2) [
      | some r ↦ (unlock1 s.poison1 s, done tk r)
      | none ↦ (unlock2 true s.l2 (unlock1 true s), panicked)
    ]

    -- The unwinding and the walk, without a mutex. The walk is taken to return: where its fuel does not do, it
    -- counts as a panic.
    unfoldable pub walk : Call → Shared E → Shared E × Pc E
    walk c s = on_ok (type_key p c.caller c.ptr) (λ tk. (s, keyed tk)) (s, panicked)

    -- `g.entry(tk)`.
    unfoldable pub enter_l2 : ℕ → Site → Shared E → Shared E × Pc E
    enter_l2 i tk s = elim (find_l2 tk s.l2) [
      | some r ↦ (s, stored tk r)
      | none ↦ (lock2 i s, making tk)
    ]

    -- `or_insert_with(classify)`, which is taken to return likewise.
    unfoldable pub make : Site → Shared E → Shared E × Pc E
    make tk s =
        on_ok (classified p tk) (λ r. (unlock2 s.poison2 ((tk, r) ∷ s.l2) s, stored tk r))
          (unlock2 true s.l2 s, panicked)

    -- A move of thread `i`; none where it waits or has ended.
    unfoldable pub move : ℕ → Call → Shared E → Pc E → Option (Shared E × Pc E)
    unfolding look_up answer walk enter_l2 make
    move i c s start = locked s.owner1 s.poison1 (s, panicked) (look_up i c s)
    move i c s (hit tk) = locked s.owner2 s.poison2 (unlock1 true s, panicked) (answer tk s)
    move i c s miss = some (walk c s)
    move i c s (keyed tk) = locked s.owner2 s.poison2 (s, panicked) (enter_l2 i tk s)
    move i c s (making tk) = some (make tk s)
    move i c s (stored tk r) =
        locked s.owner1 s.poison1 (s, panicked) (insert1 c.site tk s, done tk r)
    move i c s (done tk r) = none
    move i c s panicked = none

-- `n` threads, each with its call.
pub record System {ℓ} (E : Type ℓ) : Type ℓ where
  pub shared : Shared E
  pub pc : ℕ → Pc E

abbrev pub set {ℓ} : {A : Type ℓ} → (ℕ → A) → ℕ → A → ℕ → A
set f i a j = if i == j then a else f j

module _ {ℓ} {E : Type ℓ} (p : Process) (n : ℕ) (calls : ℕ → Call) where
  -- One move of one thread, in any order.
  pub data Step (s : System E) : System E → Type ℓ where
    pick :
        (i : ℕ) (m : Shared E) (q : Pc E)
        → i < n
        → move p i (calls i) s.shared (s.pc i) ≡ some (m, q)
        → Step s (record { shared = m; pc = set s.pc i q })

  pub data Reach (s : System E) : System E → Type ℓ where
    here : Reach s s
    later : {t u : System E} → Reach s t → Step t u → Reach s u

-- Empty caches, and every thread before its call.
abbrev pub init {ℓ} : {E : Type ℓ} → System E
init = record {
  shared = record {
    l1 = [];
    l2 = [];
    owner1 = none;
    owner2 = none;
    poison1 = false;
    poison2 = false;
  };
  pc = λ i. start;
}
