-- ===== src/Jit/Memory.antt =====
-- Raw memory as jit.rs and interp.rs write it: bytes at addresses, little-endian words.
pub mod Copy
use bilbo.Base.{
  ℕ, zero, suc, ◌+◌, ◌-◌, ◌*◌, ◌/◌, ◌%◌, ◌^◌, ◌≤◌, ◌<◌, ◌≡◌, refl, Bool, true, false, ◌&&◌, List,
  [], ◌∷◌, arith, ltb, leb, ◌==◌, if◌then◌else◌,
}

abbrev pub Memory : Type 0
Memory = ℕ → ℕ

-- `a` is one of the `n` addresses from `base` on.
abbrev pub within : ℕ → ℕ → ℕ → Bool
within base n a = leb base a && ltb a (base + n)

-- A store of the `w` low bytes of `v`, the lowest first.
unfoldable pub store : Memory → ℕ → ℕ → ℕ → Memory
store m w v dst a = if within dst w a then v / 256 ^ (a - dst) % 256 else m a

-- A load of `w` bytes.
unfoldable pub load : Memory → ℕ → ℕ → ℕ
load m zero src = 0
load m (suc w) src = m src + 256 * load m w (src + 1)

-- A load of `w` bytes that is stored again, `Emit::cp`.
unfoldable pub cp : ℕ → (src dst off : ℕ) → Memory → Memory
cp w src dst off m a = if within (dst + off) w a then m (src + off + (a - (dst + off))) else m a

-- The word loop of `emit_copy`, over `i`, at most `rounds` times.
unfoldable pub copy_words : ℕ → (src dst len i : ℕ) → Memory → Memory
unfolding cp
copy_words zero src dst len i m = m
copy_words (suc rounds) src dst len i m =
    let next = copy_words rounds src dst len (i + 8) (cp 8 src dst i m) in
    if leb (i + 8) len then next else m

-- `Emit::emit_copy`: words and one overlapping word, or overlapping 4, 2 and 1 bytes.
unfoldable pub emit_copy : (dst src len : ℕ) → Memory → Memory
unfolding copy_words cp
emit_copy dst src len m =
    if leb 8 len
    then cp 8 src dst (len - 8) (copy_words len src dst len 0 m)
    else if leb 4 len
    then cp 4 src dst (len - 4) (cp 4 src dst 0 m)
    else if leb 2 len
    then cp 2 src dst (len - 2) (cp 2 src dst 0 m)
    else if len == 0
    then m
    else cp 1 src dst 0 m

-- The address of a store with an offset: `off as i32` keeps 32 bits, which the store extends by their sign.
unfoldable pub at_off : (base off : ℕ) → ℕ
at_off base off =
    if ltb (off % 2 ^ 32) (2 ^ 31)
    then base + off % 2 ^ 32
    else (base + off % 2 ^ 32 + 2 ^ 64 - 2 ^ 32) % 2 ^ 64

-- `Emit::store_at`: a word at `dst + off`.
unfoldable pub store_at : (dst off v : ℕ) → Memory → Memory
unfolding store at_off
store_at dst off v m = store m 8 v (at_off dst off)

-- The words of `Emit::memset0`, at most `rounds` of them: the offset, an
-- `i32` whose overflow is not checked, as in the release profile, and the bytes that remain.
unfoldable pub zero_words : ℕ → (dst o rem : ℕ) → Memory → Memory × ℕ × ℕ
unfolding store at_off
zero_words zero dst o rem m = (m, o, rem)
zero_words (suc rounds) dst o rem m =
    let next = zero_words rounds dst ((o + 8) % 2 ^ 32) (rem - 8) (store m 8 0 (at_off dst o)) in
    if leb 8 rem then next else (m, o, rem)

-- One width of the tail.
unfoldable pub zero_tail : ℕ → (dst : ℕ) → Memory × ℕ × ℕ → Memory × ℕ × ℕ
unfolding store at_off
zero_tail w dst (m, o, rem) =
    if leb w rem then (store m w 0 (at_off dst o), (o + w) % 2 ^ 32, rem - w) else (m, o, rem)

-- `Emit::memset0`: `size` is a constant, and the stores are unrolled.
unfoldable pub memset0 : (dst size : ℕ) → Memory → Memory
unfolding zero_words zero_tail
memset0 dst size m =
    (zero_tail 1 dst (zero_tail 2 dst (zero_tail 4 dst (zero_words size dst 0 size m)))).0

-- The width of an integer store.
unfoldable pub store_width : ℕ → ℕ
store_width n = if n == 1 then 1 else if n == 2 then 2 else if n == 4 then 4 else 8

-- `Emit::store_sized`.
unfoldable pub store_sized : (dst v n : ℕ) → Memory → Memory
unfolding store store_width
store_sized dst v n m = store m (store_width n) v dst

-- `Emit::store_imm`: `val as i64`, its low bytes, at `off as i32` from `dst`.
unfoldable pub store_imm : (dst off val size : ℕ) → Memory → Memory
unfolding store store_width at_off
store_imm dst off val size m = store m (store_width size) (val % 2 ^ 64) (at_off dst off)
