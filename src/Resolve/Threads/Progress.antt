-- ===== src/Resolve/Threads/Progress.antt =====
-- resolve.rs: the threads do not wait for each other in a circle, and all of them end.
use bilbo.Base.{
  ℕ, zero, suc, ◌+◌, ◌≤◌, ◌<◌, ◌≡◌, refl, sym, ◌∙◌, inl, inr, Bool, true, false, Option, none, some,
  ◌==◌, arith, ltb, Bool-cases, Option-cases, Outcome, ok, panic, fault, out_of_fuel,
}
use bilbo.Dwarf.Index.{Site}
use bilbo.Resolve.{find_l1, find_l2, Process, type_key, classified}
use bilbo.Resolve.Threads.{
  Call, Pc, start, hit, miss, keyed, making, stored, done, panicked, Shared, locked, look_up,
  answer, walk, enter_l2, make, move, on_ok, insert1, System, set, Step, pick, Reach, here, later,
  init,
}
use bilbo.Resolve.Threads.Moves.{inj}
use bilbo.Resolve.Threads.Safe.{Inv, Step-Inv, Reach-Inv}

-- How many moves a thread has left at most.
abbrev pub rank {ℓ} : {E : Type ℓ} → Pc E → ℕ
rank start = 5
rank miss = 4
rank (keyed tk) = 3
rank (making tk) = 2
rank (hit tk) = 1
rank (stored tk r) = 1
rank (done tk r) = 0
rank panicked = 0

abbrev pub total {ℓ} : {E : Type ℓ} → ℕ → (ℕ → Pc E) → ℕ
total zero pc = 0
total (suc n) pc = total n pc + rank (pc n)

module _ {ℓ} {E : Type ℓ} where
  total-set_other :
      (n : ℕ) (pc : ℕ → Pc E) (i : ℕ) (q : Pc E) → n ≤ i → total n (set pc i q) ≡ total n pc
  total-set_other zero pc i q h = refl
  total-set_other (suc n) pc i q h =
      let apart : (i == n) ≡ false = ground arith in
      let rest = total-set_other n pc i q (omega arith) in rw (rest, apart) refl

  total-set :
      (n : ℕ) (pc : ℕ → Pc E) (i : ℕ) (q : Pc E)
      → i < n
      → rank q < rank (pc i)
      → total n (set pc i q) < total n pc
  total-set zero pc i q h less = absurd (omega arith)
  total-set (suc n) pc i q h less = elim (Bool-cases (i == n)) [
    | inl last ↦
        let same : i ≡ n = ground arith in
        let rest = total-set_other n pc i q (omega arith) in
        let down : rank q < rank (pc n) = rw (← same) less in rw (rest, last) (omega (arith, down))
    | inr other ↦
        let rest = total-set n pc i q (ground arith) less in rw other (omega (arith, rest))
  ]

  -- A thread that has moves left.
  some_left : (n : ℕ) (pc : ℕ → Pc E) → 0 < total n pc → (i : ℕ) × (i < n) × (0 < rank (pc i))
  some_left zero pc h = absurd (omega arith)
  some_left (suc n) pc h = elim (Bool-cases (ltb 0 (rank (pc n)))) [
    | inl this ↦ (n, omega arith, ground arith)
    | inr ended ↦ let (i, below, left) = some_left n pc (ground arith) in (i, omega arith, left)
  ]

  none_left : (n : ℕ) (pc : ℕ → Pc E) → total n pc ≡ 0 → (i : ℕ) → i < n → rank (pc i) ≡ 0
  none_left zero pc h i below = absurd (omega arith)
  none_left (suc n) pc h i below = elim (Bool-cases (i == n)) [
    | inl last ↦ let same : i ≡ n = ground arith in rw same (omega arith)
    | inr other ↦ none_left n pc (omega arith) i (ground arith)
  ]

module _ {ℓ} {E : Type ℓ} (p : Process) (i : ℕ) (c : Call) (m : Shared E) where
  ended_less : (x y : Shared E × Pc E) (k : ℕ) → rank x.1 < k → x ≡ y → rank y.1 < k
  ended_less x y k h e = rw (← e) h

  locked_less :
      (o : Option ℕ) (b : Bool) (v u x : Shared E × Pc E) (k : ℕ)
      → rank v.1 < k
      → rank u.1 < k
      → locked o b v u ≡ some x
      → rank x.1 < k
  locked_less (some j) b v u x k hv hu e = absurd (cc)
  locked_less none true v u x k hv hu e = ended_less v x k hv (inj e)
  locked_less none false v u x k hv hu e = ended_less u x k hu (inj e)

  look_up_less : rank (look_up p i c m).1 < 5
  unfolding look_up
  look_up_less = elim (Option-cases (find_l1 c.site m.l1)) [
    | inl e ↦ rw (e, rank) (omega arith)
    | inr (tk, e) ↦ rw (e, rank) (omega arith)
  ]

  answer_less : (tk : Site) → rank (answer p tk m).1 < 1
  unfolding answer
  answer_less tk = elim (Option-cases (find_l2 tk m.l2)) [
    | inl e ↦ rw (e, rank) (omega arith)
    | inr (r, e) ↦ rw (e, rank) (omega arith)
  ]

  enter_l2_less : (tk : Site) → rank (enter_l2 p i tk m).1 < 3
  unfolding enter_l2
  enter_l2_less tk = elim (Option-cases (find_l2 tk m.l2)) [
    | inl e ↦ rw (e, rank) (omega arith)
    | inr (r, e) ↦ rw (e, rank) (omega arith)
  ]

  on_ok_less {κ} :
      {A : Type κ} (o : Outcome A) (next : A → Shared E × Pc E) (last : Shared E × Pc E) (k : ℕ)
      → ((a : A) → rank (next a).1 < k)
      → rank last.1 < k
      → rank (on_ok o next last).1 < k
  on_ok_less (ok a) next last k h l = h a
  on_ok_less panic next last k h l = l
  on_ok_less fault next last k h l = l
  on_ok_less out_of_fuel next last k h l = l

  walk_less : rank (walk p c m).1 < 4
  unfolding walk
  walk_less = on_ok_less (type_key p c.caller c.ptr) _ _ 4 (λ tk. omega arith) (omega arith)

  make_less : (tk : Site) → rank (make p tk m).1 < 2
  unfolding make
  make_less tk = on_ok_less (classified p tk) _ _ 2 (λ r. omega arith) (omega arith)

  -- Each move takes one of the moves that are left.
  move_less : (m' : Shared E) (q q' : Pc E) → move p i c m q ≡ some (m', q') → rank q' < rank q
  unfolding move
  move_less m' start q' e =
      locked_less m.owner1 m.poison1 _ _ (m', q') 5 (omega arith) look_up_less e
  move_less m' (hit tk) q' e =
      locked_less m.owner2 m.poison2 _ _ (m', q') 1 (omega arith) (answer_less tk) e
  move_less m' miss q' e = ended_less (walk p c m) (m', q') 4 walk_less (inj e)
  move_less m' (keyed tk) q' e =
      locked_less m.owner2 m.poison2 _ _ (m', q') 3 (omega arith) (enter_l2_less tk) e
  move_less m' (making tk) q' e = ended_less (make p tk m) (m', q') 2 (make_less tk) (inj e)
  move_less m' (stored tk r) q' e =
      locked_less m.owner1 m.poison1 (m, panicked) (insert1 c.site tk m, done tk r) (m', q') 1
        (omega arith) (omega arith) e
  move_less m' (done tk r) q' e = absurd (cc)
  move_less m' panicked q' e = absurd (cc)

  locked_free {κ} : {A : Type κ} (b : Bool) (v u : A) → (x : A) × (locked none b v u ≡ some x)
  locked_free true v u = (v, refl)
  locked_free false v u = (u, refl)

  -- Where the mutexes are free a thread can move.
  free_move :
      (q : Pc E)
      → 0 < rank q
      → m.owner1 ≡ none
      → m.owner2 ≡ none
      → (x : Shared E × Pc E) × (move p i c m q ≡ some x)
  unfolding move
  free_move start h e1 e2 = rw e1 (locked_free m.poison1 _ _)
  free_move (hit tk) h e1 e2 = rw e2 (locked_free m.poison2 _ _)
  free_move miss h e1 e2 = (walk p c m, refl)
  free_move (keyed tk) h e1 e2 = rw e2 (locked_free m.poison2 _ _)
  free_move (making tk) h e1 e2 = (make p tk m, refl)
  free_move (stored tk r) h e1 e2 = rw e1 (locked_free m.poison1 _ _)
  free_move (done tk r) h e1 e2 = absurd (omega arith)
  free_move panicked h e1 e2 = absurd (omega arith)

module _ {ℓ} {E : Type ℓ} (p : Process) (n : ℕ) (calls : ℕ → Call) where
  Step_less : (s t : System E) → Step p n calls s t → total n t.pc < total n s.pc
  Step_less s t (pick i m q lt e) =
      total-set n s.pc i q lt (move_less p i (calls i) s.shared m (s.pc i) q e)

  -- No circle of waiting threads: as long as one has moves left, one can move.
  can_move :
      (s : System E)
      → Inv p n s
      → 0 < total n s.pc
      → (j : ℕ) × (j < n)
        × ((x : Shared E × Pc E) × (move p j (calls j) s.shared (s.pc j) ≡ some x))
  unfolding move
  can_move s inv left = elim (Option-cases s.shared.owner2) [
    | inr (j, has2) ↦
        let (tk, at_make) = inv.held2 j has2 in
        let below : j < n = elim (Bool-cases (ltb j n)) [
          | inl yes_below ↦ ground arith
          | inr above ↦
              let at_start = inv.outside j (ground arith) in
              let clash : start ≡ making tk = sym at_start ∙ at_make in absurd (cc)
        ] in
        (j, below, (make p tk s.shared, rw at_make refl))
    | inl free2 ↦ elim (Option-cases s.shared.owner1) [
      | inr (j, has1) ↦
          let (tk, at_hit) = inv.held1 j has1 in
          let below : j < n = elim (Bool-cases (ltb j n)) [
            | inl yes_below ↦ ground arith
            | inr above ↦
                let at_start = inv.outside j (ground arith) in
                let clash : start ≡ hit tk = sym at_start ∙ at_hit in absurd (cc)
          ] in
          (j, below, rw at_hit (rw free2 (locked_free p j (calls j) s.shared s.shared.poison2 _ _)))
      | inl free1 ↦
          let (i, below, more) = some_left n s.pc left in
          (i, below, free_move p i (calls i) s.shared (s.pc i) more free1 free2)
    ]
  ]

  Reach-front : {s t u : System E} → Step p n calls s t → Reach p n calls t u → Reach p n calls s u
  Reach-front st here = later here st
  Reach-front st (later r last) = later (Reach-front st r) last

  finish :
      (k : ℕ) (s : System E)
      → Inv p n s
      → total n s.pc ≤ k
      → (t : System E) × Reach p n calls s t × (total n t.pc ≡ 0)
  finish zero s inv h = (s, here, omega arith)
  finish (suc k) s inv h = elim (Bool-cases (ltb 0 (total n s.pc))) [
    | inr ended ↦ (s, here, ground arith)
    | inl left ↦
        let (j, below, ((m, q), e)) = can_move s inv (ground arith) in
        let next : System E = record { shared = m; pc = set s.pc j q } in
        let step : Step p n calls s next = pick j m q below e in
        let less = Step_less s next step in
        let (t, rest, done_all) =
          finish k next (Step-Inv p n calls s next inv step) (omega (arith, less, h)) in
        (t, Reach-front step rest, done_all)
  ]

  -- From every state that is reached, whatever the order of the moves has been, a way leads on to one in
  -- which none of the `n` threads has a move left; and each move lowers the number of moves that are
  -- left, so that no order of the moves goes on for ever.
  pub Reach-ends :
      (s : System E)
      → Reach p n calls init s
      → ((t : System E) × Reach p n calls s t × ((i : ℕ) → i < n → rank (t.pc i) ≡ 0))
        × ((t : System E) → Step p n calls s t → total n t.pc < total n s.pc)
  Reach-ends s r =
      let (t, way, ended) = finish (total n s.pc) s (Reach-Inv p n calls s r) (omega arith) in
      ((t, way, none_left n t.pc ended), λ u st. Step_less s u st)
