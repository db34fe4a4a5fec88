-- ===== src/Jit/Emit/Compile/Complete.antt =====
-- jit.rs: `compile_parser` gives every recursive type that it meets a function of its own, and finds it
-- wherever the emitted code calls it.
use bilbo.Base.{
  ℕ, suc, ◌+◌, ◌%◌, ◌^◌, ◌≤◌, ◌<◌, ◌≡◌, refl, inl, inr, Bool, true, false, ◌&&◌, some, List, [],
  ◌∷◌, arith, ◌==◌, ==_refl, Bool-cases, and-both, or_left, or_right, Option-cases, ok,
}
use bilbo.Plan.{RecCell, Ty, Fields, no_fields, field, Cells, cell_body, get_cell, mentions}
use bilbo.Jit.Emit.Compile.{
  has, function_of, collect_cells, emit, emit_fields, Cranelift, unwrap, next_seq, declare_cells,
  define, define_cells, compile_parser,
}
use bilbo.Jit.Emit.Compile.Reach.{Covers, CoversFields, IsClosed, collect_cells-Walked}
use bilbo.Jit.Emit.Compile.Ends.{unseen, HasBodies, AreSet, collect_cells-Ended}

-- A type without `Ty::Unknown`, which no backend takes.
unfoldable mutual
  pub is_known : Ty → Bool
  is_known (Ty.unknown what) = false
  is_known (Ty.struct name fs) = are_known fs
  is_known (Ty.tuple fs) = are_known fs
  is_known (Ty.vec elem size align seq) = is_known elem
  is_known (Ty.boxed inner size align) = is_known inner
  is_known (Ty.opt disc_off disc_size none_discr some_discr payload_off size inner) = is_known inner
  is_known (Ty.map key key_size val val_size new_at insert) = is_known key && is_known val
  is_known _ = true

  pub are_known : Fields → Bool
  are_known no_fields = true
  are_known (field name offset ty fs) = is_known ty && are_known fs

abbrev pub KnownCells : Cells → Type 0
KnownCells cells = (id : RecCell) (body : Ty) → get_cell id cells ≡ some body → is_known body ≡ true

abbrev pub length_cells : List RecCell → ℕ
length_cells [] = 0
length_cells (c ∷ cells) = suc (length_cells cells)

-- The numbers that follow `seq`, in order.
unfoldable pub numbered : (seq : ℕ) → List RecCell → List (RecCell × ℕ)
numbered seq [] = []
numbered seq (c ∷ cells) = (c, suc seq) ∷ numbered (suc seq) cells

-- Cranelift takes every function that is numbered behind `seq`, and the module.
pub record Takes (crane : Cranelift) (seq : ℕ) : Type 0 where
  pub declares :
      (is_node : Bool) (n : ℕ) → seq < n → n < 2 ^ 32 → crane.declare_function is_node n ≡ true
  pub defines :
      (n : ℕ) (ty : Ty)
      → seq < n
      → n < 2 ^ 32
      → is_known ty ≡ true
      → crane.define_function n ty ≡ true
  pub finalizes : crane.finalize_definitions ≡ true

-- A cell's function: its number lies behind `seq`.
abbrev pub Called : ℕ → List RecCell → RecCell → Type 0
Called seq found id =
    (n : ℕ) × (function_of id (numbered seq found) ≡ ok n)
    × (seq < n)
    × (n ≤ seq + length_cells found)

numbered-Called :
    (seq : ℕ) (found : List RecCell) (id : RecCell) → has id found ≡ true → Called seq found id
unfolding numbered function_of
numbered-Called seq [] id h = absurd (cc)
numbered-Called seq (c ∷ found) id h = elim (Bool-cases (c == id)) [
  | inl e ↦ (suc seq, rw e refl, omega arith, omega arith)
  | inr e ↦
      let (n, called, low, high) = numbered-Called (suc seq) found id (cc (rw e at h)) in
      (n, rw e called, omega arith, omega arith)
]

-- Numbers only grow.
function_of_above :
    (seq : ℕ) (found : List RecCell) (id : RecCell) (n : ℕ)
    → function_of id (numbered seq found) ≡ ok n
    → seq < n
unfolding numbered function_of
function_of_above seq [] id n h = absurd (cc)
function_of_above seq (c ∷ found) id n h = elim (Bool-cases (c == id)) [
  | inl e ↦ let this : suc seq ≡ n = cc (rw e at h) in omega arith
  | inr e ↦ let above = function_of_above (suc seq) found id n (rw e at h) in omega arith
]

function_of_inj :
    (seq : ℕ) (found : List RecCell) (i j : RecCell) (n : ℕ)
    → function_of i (numbered seq found) ≡ ok n
    → function_of j (numbered seq found) ≡ ok n
    → i ≡ j
unfolding numbered function_of
function_of_inj seq [] i j n hi hj = absurd (cc)
function_of_inj seq (c ∷ found) i j n hi hj = elim (Bool-cases (c == i)) [
  | inl ei ↦ elim (Bool-cases (c == j)) [
    | inl ej ↦ ground arith
    | inr ej ↦
        let this : suc seq ≡ n = cc (rw ei at hi) in
        let above = function_of_above (suc seq) found j n (rw ej at hj) in absurd (omega arith)
  ]
  | inr ei ↦ elim (Bool-cases (c == j)) [
    | inl ej ↦
        let this : suc seq ≡ n = cc (rw ej at hj) in
        let above = function_of_above (suc seq) found i n (rw ei at hi) in absurd (omega arith)
    | inr ej ↦ function_of_inj (suc seq) found i j n (rw ei at hi) (rw ej at hj)
  ]
]

module _ (seq : ℕ) (found : List RecCell) where
  mutual
    unfolding emit is_known mentions

    emit-ok :
        (ty : Ty) → Covers found ty → is_known ty ≡ true → emit (numbered seq found) ty ≡ ok tt
    emit-ok (Ty.ref cell) covers known =
        let (n, called, low, high) = numbered-Called seq found cell (covers cell (==_refl cell)) in
        rw called refl
    emit-ok (Ty.unknown what) covers known = absurd (cc)
    emit-ok (Ty.struct name fs) covers known = emit_fields-ok fs covers known
    emit-ok (Ty.tuple fs) covers known = emit_fields-ok fs covers known
    emit-ok (Ty.vec elem size align s) covers known = emit-ok elem covers known
    emit-ok (Ty.boxed inner size align) covers known = emit-ok inner covers known
    emit-ok (Ty.opt disc_off disc_size none_discr some_discr payload_off size inner) covers known =
        emit-ok inner covers known
    emit-ok (Ty.map key key_size val val_size new_at insert) covers known =
        rw (emit-ok key (λ id h. covers id (or_left _ h)) (and-both _ _ known).0)
          (emit-ok val (λ id h. covers id (or_right _ h)) (and-both _ _ known).1)
    emit-ok Ty.bool covers known = refl
    emit-ok Ty.char covers known = refl
    emit-ok Ty.f32 covers known = refl
    emit-ok Ty.f64 covers known = refl
    emit-ok Ty.unit covers known = refl
    emit-ok (Ty.u n) covers known = refl
    emit-ok (Ty.i n) covers known = refl
    emit-ok (Ty.str s) covers known = refl
    emit-ok (Ty.str_ref p l) covers known = refl

    emit_fields-ok :
        (fs : Fields)
        → CoversFields found fs
        → are_known fs ≡ true
        → emit_fields (numbered seq found) fs ≡ ok tt
    emit_fields-ok no_fields covers known = refl
    emit_fields-ok (field name offset ty fs) covers known =
        rw (emit-ok ty (λ id h. covers id (or_left _ h)) (and-both _ _ known).0)
          (emit_fields-ok fs (λ id h. covers id (or_right _ h)) (and-both _ _ known).1)

-- The counter goes up by one for each cell.
declare_cells-numbered :
    (crane : Cranelift) (start seq : ℕ) (found : List RecCell)
    → Takes crane start
    → start ≤ seq
    → seq + length_cells found < 2 ^ 32
    → declare_cells crane seq found ≡ ok (numbered seq found, seq + length_cells found)
unfolding declare_cells numbered unwrap next_seq
declare_cells-numbered crane start seq [] takes later room =
    let e : seq + 0 ≡ seq = omega arith in rw e refl
declare_cells-numbered crane start seq (c ∷ found) takes later room =
    let step : (seq + 1) % 2 ^ 32 ≡ suc seq = omega arith in
    let declared = takes.declares true (suc seq) (omega arith) (omega arith) in
    let rest =
      declare_cells-numbered crane start (suc seq) found takes (omega arith) (omega arith) in
    let count : suc seq + length_cells found ≡ seq + suc (length_cells found) = omega arith in
    rw (step, declared, rest, count) refl

module _ (crane : Cranelift) (seq : ℕ) (found : List RecCell) (takes : Takes crane seq) where
  define-ok :
      (n : ℕ) (ty : Ty)
      → Covers found ty
      → is_known ty ≡ true
      → seq < n
      → n < 2 ^ 32
      → define crane (numbered seq found) n ty ≡ ok tt
  unfolding define unwrap
  define-ok n ty covers known low high =
      rw (emit-ok seq found ty covers known, takes.defines n ty low high known) refl

  -- The bodies that are still to be defined are among those that were found.
  define_cells-ok :
      (cells : Cells) (from : ℕ) (todo : List RecCell)
      → KnownCells cells
      → ((id : RecCell) → has id found ≡ true → IsClosed cells found id)
      → ((id : RecCell) → has id todo ≡ true → has id found ≡ true)
      → seq ≤ from
      → from + length_cells todo < 2 ^ 32
      → define_cells crane cells (numbered seq found) (numbered from todo) ≡ ok tt
  unfolding define_cells numbered cell_body
  define_cells-ok cells from [] known closed among later room = refl
  define_cells-ok cells from (c ∷ todo) known closed among later room =
      let (body, set, covers) = closed c (among c (or_left _ (==_refl c))) in
      let body_known : is_known body ≡ true = elim (Option-cases (get_cell c cells)) [
        | inl none_set ↦ absurd (cc (rw none_set at set))
        | inr (b, e) ↦ let same : b ≡ body = cc (rw e at set) in known c body (rw (← same) e)
      ] in
      let this = define-ok (suc from) body covers body_known (omega arith) (omega arith) in
      let rest =
        define_cells-ok cells (suc from) todo known closed (λ id h. among id (or_right _ h))
          (omega arith) (omega arith) in
      rw (set, this) rest

-- `compile_parser` ends without a panic. Each cell that the type or a found body mentions is found, and
-- has a function, whose number lies between the old and the new value of the counter; no two cells share
-- one. Given are: every mentioned cell has a body, no `Ty::Unknown` anywhere, as much fuel as there are
-- bodies, that Cranelift takes the functions with new numbers, and that the 32-bit counter does not
-- overflow.
pub compile_parser_complete :
    (crane : Cranelift) (cells : Cells) (ty : Ty) (fuel seq : ℕ)
    → AreSet cells
    → HasBodies cells ty
    → KnownCells cells
    → is_known ty ≡ true
    → unseen cells [] < fuel
    → Takes crane seq
    → ((found : List RecCell)
        → collect_cells fuel cells ty [] ≡ ok found
        → seq + suc (length_cells found) < 2 ^ 32)
    → (found : List RecCell) × (compile_parser crane fuel cells ty seq
        ≡ ok (numbered seq found, suc (seq + length_cells found)))
      × Covers found ty
      × ((id : RecCell) → has id found ≡ true → IsClosed cells found id × Called seq found id)
      × ((i j : RecCell) (n : ℕ)
          → function_of i (numbered seq found) ≡ ok n
          → function_of j (numbered seq found) ≡ ok n
          → i ≡ j)
unfolding compile_parser unwrap next_seq
compile_parser_complete crane cells ty fuel seq set set_ty known known_ty room takes counts =
    let (found, e, fewer) = collect_cells-Ended fuel cells ty [] set set_ty room in
    let few = counts found e in
    let (walked, covers) = collect_cells-Walked fuel cells ty [] found e in
    let closed : (id : RecCell) → has id found ≡ true → IsClosed cells found id =
      λ id h. elim (walked.closed id h) [ inl before ↦ absurd (cc) | inr now ↦ now ] in
    let declared = declare_cells-numbered crane seq seq found takes (omega arith) (omega arith) in
    let defined =
      define_cells-ok crane seq found takes cells seq found known closed (λ id h. h) (omega arith)
        (omega arith) in
    let step : (seq + length_cells found + 1) % 2 ^ 32 ≡ suc (seq + length_cells found) =
      omega arith in
    let named = takes.declares false (suc (seq + length_cells found)) (omega arith) (omega arith) in
    let last =
      define-ok crane seq found takes (suc (seq + length_cells found)) ty covers known_ty
        (omega arith) (omega arith) in
    (
      found,
      rw (e, declared, defined, step, named, last, takes.finalizes) refl,
      covers,
      λ id h. (closed id h, numbered-Called seq found id h),
      function_of_inj seq found,
    )
