-- ===== src/Interp/Ends/Loops.antt =====
-- interp.rs: the loops of `run` end, where the calls of `run` inside do.
use bilbo.Base.{
  larger, larger_left, larger_right, fault, out_of_fuel, ℕ, suc, ◌+◌, ◌*◌, ◌≤◌, ◌<◌, ◌≡◌, refl, inl,
  inr, true, none, some, arith, leb, leb→le, ◌==◌, if◌then◌else◌, Bool-cases, Option-cases,
  slot_room, and-both, Outcome, ok, panic, ◌>>=◌, Ends, >>=-Ends, expect-Ends,
}
use bilbo.Json.Value.{Json, Items, null, array, object, num, str, bool, no_items, item, get}
use bilbo.Plan.{Ty, Fields, no_fields, field, SeqLayout, RecCell, Cells, cell_body, get_cell}
use bilbo.Machine.{Machine, alloc}
use bilbo.Interp.{
  Env, Writer, is_opt, at_least_one, length_items, expect_array, run_fields, run_zip, run_items,
  run_vec, box_alloc,
}
use bilbo.Interp.Ends.{
  depth, depth_items, levels, is_shallow, are_shallow, if-Ends, alloc-Ends, get-depth,
}

-- The last step of a case, where the first one is known to have gone well.
pub next-Ends :
    {S T : Type 0} (r : Outcome S) (next : S → Outcome T)
    → Ends r
    → ((s : S) → r ≡ ok s → Ends (next s))
    → Ends (r >>= next)
next-Ends (ok s) next h k = k s refl
next-Ends panic next h k = tt
next-Ends fault next h k = tt
next-Ends out_of_fuel next h k = h

-- `run` on less fuel, for what is one level down.
deeper : (a b k x f : ℕ) → a < b → x ≤ k → b * k ≤ f → x + a * k ≤ f
deeper a b k x f h p q = let (room, rest) = slot_room a b k h in omega (arith, room, p, q)

pub expect_array-Ends : (v : Json) → Ends (expect_array v)
unfolding expect_array
expect_array-Ends (array xs) = tt
expect_array-Ends (object ms) = tt
expect_array-Ends null = tt
expect_array-Ends (num s) = tt
expect_array-Ends (str s) = tt
expect_array-Ends (bool b) = tt

pub expect_array-depth : (v : Json) (xs : Items) → expect_array v ≡ ok xs → depth_items xs < depth v
unfolding expect_array depth
expect_array-depth (array ys) xs e = let same_items : ys ≡ xs = cc in rw same_items (omega arith)
expect_array-depth (object ms) xs e = absurd (cc)
expect_array-depth null xs e = absurd (cc)
expect_array-depth (num s) xs e = absurd (cc)
expect_array-depth (str s) xs e = absurd (cc)
expect_array-depth (bool b) xs e = absurd (cc)

pub cell_body-Ends : (id : RecCell) (cells : Cells) → Ends (cell_body id cells)
unfolding cell_body
cell_body-Ends id cells = expect-Ends (get_cell id cells)

-- Enough fuel for a value, and for an option that is absent.
abbrev pub Enough : (g k : ℕ) → Writer → (f : ℕ) → Type 0
Enough g k rec f =
    ((dst : ℕ) (ty : Ty) (val : Json) (m : Machine)
      → is_shallow g k ty ≡ true
      → levels g ty + depth val * k ≤ f
      → Ends (rec dst ty val m))
    × ((dst : ℕ) (ty : Ty) (m : Machine) → is_opt ty ≡ true → 1 ≤ f → Ends (rec dst ty null m))

module _ (env : Env) (g k : ℕ) (rec : Writer) (f : ℕ) (enough : Enough g k rec f) where
  pub run_fields-Ends :
      (dst : ℕ) (fs : Fields) (val : Json) (m : Machine)
      → are_shallow g k fs ≡ true
      → depth val * k ≤ f
      → 1 ≤ f
      → Ends (run_fields env rec dst fs val m)
  unfolding run_fields is_shallow
  run_fields-Ends dst no_fields val m s h p = tt
  run_fields-Ends dst (field name offset ty fs) val m s h p =
      let (few, s') = and-both (leb (levels g ty) k) _ s in
      let (st, sf) = and-both (is_shallow g k ty) _ s' in
      >>=-Ends
        (elim (get val name) [
          | some fv ↦ rec (dst + offset) ty fv m
          | none ↦ if is_opt ty then rec (dst + offset) ty null m else panic
        ])
        _
        (elim (Option-cases (get val name)) [
          | inr (fv, there) ↦
              let down = get-depth val name fv there in
              rw there (
                enough.0 (dst + offset) ty fv m st
                  (deeper (depth fv) (depth val) k _ f down (leb→le _ _ few) h))
          | inl absent ↦ elim (Bool-cases (is_opt ty)) [
            | inl opt ↦ rw (absent, opt) (enough.1 (dst + offset) ty m opt p)
            | inr other ↦ rw (absent, other) tt
          ]
        ])
        (λ m'. run_fields-Ends dst fs val m' sf h p)

  -- The fuel for an element of the array.
  element_fuel :
      (ty : Ty) (v : Json) (xs : Items) (d : ℕ)
      → leb (levels g ty) k ≡ true
      → larger (depth v) (depth_items xs) < d
      → d * k ≤ f
      → levels g ty + depth v * k ≤ f
  element_fuel ty v xs d few down h =
      let part = larger_left (depth v) (depth_items xs) in
      deeper (depth v) d k _ f (omega (arith, part, down)) (leb→le _ _ few) h

  pub run_zip-Ends :
      (dst : ℕ) (fs : Fields) (xs : Items) (d : ℕ) (m : Machine)
      → are_shallow g k fs ≡ true
      → depth_items xs < d
      → d * k ≤ f
      → Ends (run_zip env rec dst fs xs m)
  unfolding run_zip is_shallow depth
  run_zip-Ends dst no_fields xs d m s down h = tt
  run_zip-Ends dst (field name offset ty fs) no_items d m s down h = tt
  run_zip-Ends dst (field name offset ty fs) (item v xs) d m s down h =
      let (few, s') = and-both (leb (levels g ty) k) _ s in
      let (st, sf) = and-both (is_shallow g k ty) _ s' in
      let part = larger_right (depth v) (depth_items xs) in
      >>=-Ends (rec (dst + offset) ty v m) _
        (enough.0 (dst + offset) ty v m st (element_fuel ty v xs d few down h))
        (λ m'. run_zip-Ends dst fs xs d m' sf (omega (arith, part, down)) h)

  run_items-Ends :
      (base esz i : ℕ) (elem : Ty) (xs : Items) (d : ℕ) (m : Machine)
      → leb (levels g elem) k ≡ true
      → is_shallow g k elem ≡ true
      → depth_items xs < d
      → d * k ≤ f
      → Ends (run_items env rec base esz elem i xs m)
  unfolding run_items depth
  run_items-Ends base esz i elem no_items d m few s down h = tt
  run_items-Ends base esz i elem (item v xs) d m few s down h =
      let part = larger_right (depth v) (depth_items xs) in
      >>=-Ends (rec (base + i * esz) elem v m) _
        (enough.0 (base + i * esz) elem v m s (element_fuel elem v xs d few down h))
        (λ m'. run_items-Ends base esz (suc i) elem xs d m' few s (omega (arith, part, down)) h)

  pub run_vec-Ends :
      (dst esz align : ℕ) (elem : Ty) (seq : SeqLayout) (xs : Items) (d : ℕ) (m : Machine)
      → leb (levels g elem) k ≡ true
      → is_shallow g k elem ≡ true
      → depth_items xs < d
      → d * k ≤ f
      → Ends (run_vec env rec dst elem esz align seq xs m)
  unfolding run_vec
  run_vec-Ends dst esz align elem seq no_items d m few s down h = tt
  run_vec-Ends dst esz align elem seq (item v xs) d m few s down h =
      >>=-Ends (alloc env.std (esz * length_items (item v xs)) (at_least_one align) m) _
        (alloc-Ends env.std _ (at_least_one align) m)
        (λ r.
          >>=-Ends (run_items env rec r.0 esz elem 0 (item v xs) r.1) _
            (run_items-Ends r.0 esz 0 elem (item v xs) d r.1 few s down h) (λ m'. tt))

  pub box_alloc-Ends : (size align : ℕ) (m : Machine) → Ends (box_alloc env size align m)
  unfolding box_alloc
  box_alloc-Ends size align m =
      if-Ends (size == 0) _ _ tt (alloc-Ends env.std size (at_least_one align) m)
