-- ===== src/Jit/Emit.antt =====
-- jit.rs: `Emit::parse`, as what the emitted code does when it runs: it parses one value at the cursor
-- into `dst`, and leaves the cursor behind it. `rec` is the parser of an inner type; the rounds of a
-- loop are on fuel.
pub mod Leaves
pub mod Alloc
pub mod Compile
pub mod Frame
pub mod Grow
pub mod Owned
pub mod Parts
pub mod Structs
pub mod Vecs
use bilbo.Base.{
  ℕ, zero, suc, ◌+◌, ◌-◌, ◌*◌, ◌%◌, ◌^◌, Bool, true, false, Option, none, some, List, [], ◌∷◌, leb,
  ◌==◌, if◌then◌else◌, length, drop, Outcome, ok, panic, fault, out_of_fuel, ◌>>=◌,
}
use bilbo.Json.Value.{Text}
use bilbo.Plan.{Ty, Fields, no_fields, field, SeqLayout, cell_body}
use bilbo.Machine.{Machine, set_mem, write}
use bilbo.Jit.Memory.{store_sized, store_at, store_imm, memset0}
use bilbo.Jit.Shims.{Span, rt_skip}
use bilbo.Jit.Scan.{ws, strspan, build_str}
use bilbo.Jit.Number.{load_u8, intval}
use bilbo.Jit.Keys.{dispatch}
use Alloc.{JitEnv, max_one, rt_alloc, rt_box_alloc, rt_realloc, rt_f64v, owned}

-- The code for a type, on the fuel that is left.
abbrev pub Parse : Type 0
Parse = Ty → (dst : ℕ) → Text → Machine → Outcome (Text × Machine)

-- A comma is stepped over, where there is one.
unfoldable pub past_comma : Text → Outcome Text
past_comma c = do bc ← load_u8 c; ok (if bc == b',' then drop 1 c else c)

-- An option's `None`.
unfoldable pub set_none : (dst disc_off disc_size none_discr size : ℕ) → Machine → Machine
set_none dst disc_off disc_size none_discr size m =
    set_mem (store_imm dst disc_off none_discr disc_size (memset0 dst size m.mem)) m

abbrev pub field_names : Fields → List Text
field_names no_fields = []
field_names (field name offset ty fs) = name ∷ field_names fs

-- Every option among the fields is `None` up front.
unfoldable pub default_fields : (dst : ℕ) → Fields → Machine → Machine
unfolding set_none
default_fields dst no_fields m = m
default_fields dst
      (field name offset
        (Ty.opt disc_off disc_size none_discr some_discr payload_off size inner)
        fs)
      m =
    default_fields dst fs (set_none (dst + offset) disc_off disc_size none_discr size m)
default_fields dst (field name offset ty fs) m = default_fields dst fs m

-- The block of the `i`-th field.
unfoldable pub parse_field :
    Parse → (i : ℕ) → Fields → (dst : ℕ) → Text → Machine → Outcome (Text × Machine)
parse_field rec i no_fields dst c m = panic
parse_field rec zero (field name offset ty fs) dst c m = rec ty (dst + offset) c m
parse_field rec (suc i) (field name offset ty fs) dst c m = parse_field rec i fs dst c m

unfoldable pub write_words : (dst : ℕ) → SeqLayout → (ptr cap len : ℕ) → Machine → Machine
unfolding store_at
write_words dst seq ptr cap len m =
    set_mem
      (store_at dst seq.len_off len
        (store_at dst seq.cap_off cap (store_at dst seq.ptr_off ptr m.mem)))
      m

-- The two words of a `&str`.
unfoldable pub write_ref : (dst ptr_off len_off ptr len : ℕ) → Machine → Machine
unfolding store_at
write_ref dst ptr_off len_off ptr len m =
    set_mem (store_at dst len_off len (store_at dst ptr_off ptr m.mem)) m

-- The registers of the loop of `parse_vec`.
pub record Vec : Type 0 where
  pub base : ℕ
  pub cap : ℕ
  pub len : ℕ

module _ (env : JitEnv) where
  -- A key, and the block that it leads to: a field's, or the one that skips the value.
  unfoldable pub struct_entry :
      Parse → Fields → (dst : ℕ) → Text → Machine → Outcome (Text × Machine)
  struct_entry rec fs dst hc m = do
    key ← strspan env.crate hc
    let c = drop 1 (ws key.after)
    i ← dispatch (drop 1 (ws hc)) (length key.body) (field_names fs)
    elim i [ some k ↦ parse_field rec k fs dst c m | none ↦ ok (rt_skip c, m) ]

  unfoldable pub struct_loop :
      Parse → (rounds : ℕ) → Fields → (dst : ℕ) → Text → Machine → Outcome (Text × Machine)
  struct_loop rec zero fs dst hc m = out_of_fuel
  struct_loop rec (suc rounds) fs dst hc m = do
    bch ← load_u8 (ws hc)
    elim (bch == b'}') [
      | true ↦ ok (drop 1 (ws hc), m)
      | false ↦ do
        (ac, m') ← struct_entry rec fs dst (ws hc) m
        ac' ← past_comma (ws ac)
        struct_loop rec rounds fs dst ac' m'
    ]

  unfoldable pub parse_struct :
      Parse → (rounds : ℕ) → Fields → (dst : ℕ) → Text → Machine → Outcome (Text × Machine)
  parse_struct rec rounds fs dst cur m =
      struct_loop rec rounds fs dst (drop 1 (ws cur)) (default_fields dst fs m)

  -- The fields of a tuple, one after the other.
  unfoldable pub tuple_fields :
      Parse → Fields → (dst : ℕ) → Text → Machine → Outcome (Text × Machine)
  tuple_fields rec no_fields dst c m = ok (drop 1 (ws c), m)
  tuple_fields rec (field name offset ty fs) dst c m = do
    (c1, m1) ← rec ty (dst + offset) c m
    c2 ← past_comma (ws c1)
    tuple_fields rec fs dst c2 m1

  unfoldable pub parse_tuple :
      Parse → Fields → (dst : ℕ) → Text → Machine → Outcome (Text × Machine)
  parse_tuple rec fs dst cur m = tuple_fields rec fs dst (drop 1 (ws cur)) m

  -- The block `grow`: a capacity of 4, then twice as much; the sizes are 64-bit products.
  unfoldable pub grow : (esz align : ℕ) → Vec → Machine → Outcome (Vec × Machine)
  grow esz align v m = do
    let newcap : ℕ = if v.cap == 0 then 4 else v.cap * 2 % 2 ^ 64
    (p, m') ← rt_realloc env v.base (v.cap * esz % 2 ^ 64) (newcap * esz % 2 ^ 64) align m
    ok (record { base = p; cap = newcap; len = v.len }, m')

  -- The block `body`: the vector grows where it is full.
  unfoldable pub with_room : (esz align : ℕ) → Vec → Machine → Outcome (Vec × Machine)
  with_room esz align v m = if v.len == v.cap then grow esz align v m else ok (v, m)

  unfoldable pub vec_loop :
      Parse
      → (rounds : ℕ) → Ty
      → (esz align : ℕ) → Vec
      → Text
      → Machine
      → Outcome (Text × Vec × Machine)
  vec_loop rec zero elem esz align v hc m = out_of_fuel
  vec_loop rec (suc rounds) elem esz align v hc m = do
    bch ← load_u8 (ws hc)
    elim (bch == b']') [
      | true ↦ ok (ws hc, v, m)
      | false ↦ do
        (w, m1) ← with_room esz align v m
        (ac, m2) ← rec elem (w.base + w.len * esz % 2 ^ 64) (ws hc) m1
        ac' ← past_comma (ws ac)
        vec_loop rec rounds elem esz align (record { base = w.base; cap = w.cap; len = w.len + 1 })
            ac' m2
    ]

  -- An empty vector keeps the aligned dangling pointer and the capacity 0.
  unfoldable pub parse_vec :
      Parse
      → (rounds : ℕ) → Ty
      → (elem_size elem_align : ℕ) → SeqLayout
      → (dst : ℕ) → Text
      → Machine
      → Outcome (Text × Machine)
  parse_vec rec rounds elem elem_size elem_align seq dst cur m = do
    let align : ℕ = if elem_align == 0 then 1 else elem_align
    (fc, v, m') ←
        vec_loop rec rounds elem elem_size align (record { base = align; cap = 0; len = 0 })
          (drop 1 (ws cur)) m
    ok (drop 1 (ws fc), write_words dst seq v.base v.cap v.len m')

  unfoldable pub map_loop :
      Parse
      → (rounds : ℕ) → (key val : Ty) → (insert kaddr vaddr dst : ℕ) → Text
      → Machine
      → Outcome (Text × Machine)
  map_loop rec zero key val insert kaddr vaddr dst hc m = out_of_fuel
  map_loop rec (suc rounds) key val insert kaddr vaddr dst hc m = do
    bch ← load_u8 (ws hc)
    elim (bch == b'}') [
      | true ↦ ok (drop 1 (ws hc), m)
      | false ↦ do
        (c1, m1) ← rec key kaddr (ws hc) m
        (c2, m2) ← rec val vaddr (drop 1 (ws c1)) m1
        m3 ← env.map_insert insert dst kaddr vaddr m2
        c3 ← past_comma (ws c2)
        map_loop rec rounds key val insert kaddr vaddr dst c3 m3
    ]

  -- The slots for one key and one value are the function's.
  unfoldable pub parse_map :
      Parse
      → (rounds : ℕ) → (key : Ty) → (key_size : ℕ) → (val : Ty) → (val_size new_at insert dst : ℕ)
      → Text
      → Machine
      → Outcome (Text × Machine)
  parse_map rec rounds key key_size val val_size new_at insert dst cur m = do
    m1 ← env.map_new new_at dst m
    let (kaddr, m2) = env.slot (max_one key_size) m1
    let (vaddr, m3) = env.slot (max_one val_size) m2
    map_loop rec rounds key val insert kaddr vaddr dst (drop 1 (ws cur)) m3

  unfoldable pub parse_opt :
      Parse
      → (disc_off disc_size none_discr : ℕ) → Option ℕ
      → (payload_off size : ℕ) → Ty
      → (dst : ℕ) → Text
      → Machine
      → Outcome (Text × Machine)
  parse_opt rec disc_off disc_size none_discr some_discr payload_off size inner dst cur m = do
    b ← load_u8 (ws cur)
    elim (b == b'n') [
      | true ↦ ok (drop 4 (ws cur), set_none dst disc_off disc_size none_discr size m)
      | false ↦ do
        (cc, m') ← rec inner (dst + payload_off) (ws cur) m
        ok (
          cc,
          elim some_discr [
            | none ↦ m'
            | some sd ↦ set_mem (store_imm dst disc_off sd disc_size m'.mem) m'
          ],
        )
    ]

  -- The cases of `parse`.
  unfoldable pub parse_at : Parse → (rounds : ℕ) → Parse
  parse_at rec rounds Ty.bool dst cur m = do
    b ← load_u8 (ws cur)
    ok (drop (if b == b'f' then 5 else 4) (ws cur), write 1 dst (if b == b't' then 1 else 0) m)
  parse_at rec rounds (Ty.u n) dst cur m = do
    (v, c) ← intval false cur
    ok (c, set_mem (store_sized dst v n m.mem) m)
  parse_at rec rounds (Ty.i n) dst cur m = do
    (v, c) ← intval true cur
    ok (c, set_mem (store_sized dst v n m.mem) m)
  parse_at rec rounds Ty.f32 dst cur m =
      let (bits, c) = rt_f64v env cur in ok (c, write 4 dst (env.floats.to_f32 bits) m)
  parse_at rec rounds Ty.f64 dst cur m =
      let (bits, c) = rt_f64v env cur in ok (c, write 8 dst bits m)
  parse_at rec rounds Ty.char dst cur m = do
    s ← strspan env.crate cur
    ch ← load_u8 (drop 1 (ws cur))
    ok (s.after, write 4 dst ch m)
  parse_at rec rounds (Ty.str seq) dst cur m = do
    s ← strspan env.crate cur
    t ← build_str s
    (p, m') ← owned env s t m
    ok (s.after, write_words dst seq p (length t) (length t) m')
  parse_at rec rounds (Ty.str_ref ptr_off len_off) dst cur m = do
    s ← strspan env.crate cur
    t ← build_str s
    (p, m') ← owned env s t m
    ok (s.after, write_ref dst ptr_off len_off p (length t) m')
  parse_at rec rounds (Ty.struct name fs) dst cur m = parse_struct rec rounds fs dst cur m
  parse_at rec rounds (Ty.tuple fs) dst cur m = parse_tuple rec fs dst cur m
  parse_at rec rounds (Ty.vec elem elem_size elem_align seq) dst cur m =
      parse_vec rec rounds elem elem_size elem_align seq dst cur m
  parse_at rec rounds (Ty.boxed inner size align) dst cur m = do
    (bp, m1) ← rt_box_alloc env size align m
    (c, m2) ← rec inner bp cur m1
    ok (c, write 8 dst bp m2)
  parse_at rec rounds Ty.unit dst cur m = ok (rt_skip cur, m)
  parse_at rec rounds (Ty.opt disc_off disc_size none_discr some_discr payload_off size inner) dst
        cur m =
      parse_opt rec disc_off disc_size none_discr some_discr payload_off size inner dst cur m
  parse_at rec rounds (Ty.map key key_size val val_size new_at insert) dst cur m =
      parse_map rec rounds key key_size val val_size new_at insert dst cur m
  parse_at rec rounds (Ty.ref cell) dst cur m = do ty ← cell_body cell env.cells; rec ty dst cur m
  parse_at rec rounds (Ty.unknown w) dst cur m = panic

  unfoldable pub parse : (fuel : ℕ) → Parse
  unfolding parse_at
  parse zero ty dst cur m = out_of_fuel
  parse (suc fuel) ty dst cur m = parse_at (parse fuel) (suc fuel) ty dst cur m
