-- ===== src/Jitdump/Read.antt =====
-- jitdump.rs: a reader of the format that profilers read, and that it reads what `register` writes.
use bilbo.Base.{
  ℕ, zero, suc, ◌+◌, ◌*◌, ◌/◌, ◌%◌, ◌^◌, ◌<◌, ◌≡◌, refl, Bool, true, false, not, ◌&&◌, [], ◌∷◌,
  ◌++◌, append_assoc, arith, ◌==◌, ==_refl, inl, inr, Bool-cases, and-both, if◌then◌else◌, length,
  Outcome, ok, panic, ◌>>=◌,
}
use bilbo.Json.Value.{Text}
use bilbo.Jitdump.{le_bytes, jit_code_load, total_size, record_bytes}

-- A number of `w` bytes.
unfoldable pub read_le : (w : ℕ) → Text → Outcome (ℕ × Text)
read_le zero s = ok (0, s)
read_le (suc w) [] = panic
read_le (suc w) (c ∷ s) = do (v, rest) ← read_le w s; ok (c + 256 * v, rest)

-- A text up to its NUL.
unfoldable pub read_name : Text → Outcome (Text × Text)
read_name [] = panic
read_name (c ∷ s) = elim (c == 0) [
  | true ↦ ok ([], s)
  | false ↦ do (name, rest) ← read_name s; ok (c ∷ name, rest)
]

-- No NUL.
unfoldable pub is_name : Text → Bool
is_name [] = true
is_name (c ∷ s) = not (c == 0) && is_name s

-- So many bytes.
unfoldable pub read_bytes : ℕ → Text → Outcome (Text × Text)
read_bytes zero s = ok ([], s)
read_bytes (suc n) [] = panic
read_bytes (suc n) (c ∷ s) = do (code, rest) ← read_bytes n s; ok (c ∷ code, rest)

read_le-le_bytes :
    (w v : ℕ) (rest : Text) → v < 256 ^ w → read_le w (le_bytes w v ++ rest) ≡ ok (v, rest)
unfolding read_le le_bytes
read_le-le_bytes zero v rest h = let same : 0 ≡ v = omega arith in rw same refl
read_le-le_bytes (suc w) v rest h =
    let part : v / 256 < 256 ^ w = omega arith in
    let sum : v % 256 + 256 * (v / 256) ≡ v = omega arith in
    rw (read_le-le_bytes w (v / 256) rest part) (rw sum refl)

read_name-append :
    (name rest : Text) → is_name name ≡ true → read_name (name ++ 0 ∷ rest) ≡ ok (name, rest)
unfolding read_name is_name
read_name-append [] rest h = refl
read_name-append (c ∷ name) rest h =
    let (here, later) = and-both (not (c == 0)) _ h in
    elim (Bool-cases (c == 0)) [
      | inl nul ↦ absurd (cc (rw nul at here))
      | inr other ↦ rw (other, read_name) (rw (read_name-append name rest later) refl)
    ]

read_bytes-append : (code rest : Text) → read_bytes (length code) (code ++ rest) ≡ ok (code, rest)
unfolding read_bytes
read_bytes-append [] rest = refl
read_bytes-append (c ∷ code) rest = rw (read_bytes-append code rest) refl

-- What a profiler learns of one function.
pub record Entry : Type 0 where
  pub time : ℕ
  pub pid : ℕ
  pub tid : ℕ
  pub vma : ℕ
  pub code_addr : ℕ
  pub index : ℕ
  pub name : Text
  pub code : Text

-- One record of the kind JIT_CODE_LOAD, whose total size is that of its parts.
unfoldable pub read_record : Text → Outcome (Entry × Text)
read_record s = do
  (kind, s1) ← read_le 4 s
  (total, s2) ← read_le 4 s1
  (time, s3) ← read_le 8 s2
  (pid, s4) ← read_le 4 s3
  (tid, s5) ← read_le 4 s4
  (vma, s6) ← read_le 8 s5
  (addr, s7) ← read_le 8 s6
  (size, s8) ← read_le 8 s7
  (idx, s9) ← read_le 8 s8
  (name, s10) ← read_name s9
  (code, s11) ← read_bytes size s10
  if kind == 0 && total == 57 + length name + size
      then ok (
        record {
          time = time;
          pid = pid;
          tid = tid;
          vma = vma;
          code_addr = addr;
          index = idx;
          name = name;
          code = code;
        },
        s11,
      )
      else panic

abbrev pub entry : (ts pid addr idx : ℕ) → (name code : Text) → Entry
entry ts pid addr idx name code = record {
  time = ts;
  pid = pid;
  tid = 0;
  vma = addr;
  code_addr = addr;
  index = idx;
  name = name;
  code = code;
}

pub read_record-record_bytes :
    (ts pid addr idx : ℕ) (name code rest : Text)
    → ts < 2 ^ 64
    → pid < 2 ^ 32
    → addr < 2 ^ 64
    → idx < 2 ^ 64
    → is_name name ≡ true
    → total_size name code < 2 ^ 32
    → read_record (record_bytes ts pid addr idx name code ++ rest)
      ≡ ok (entry ts pid addr idx name code, rest)
unfolding read_record record_bytes
read_record-record_bytes ts pid addr idx name code rest ht hp ha hi hn hs =
    let total : total_size name code % 2 ^ 32 ≡ 57 + length name + length code = omega arith in
    simp (append_assoc) (
      rw
        (
          read_le-le_bytes 4 jit_code_load _ (omega arith),
          total,
          read_le-le_bytes 4 (57 + length name + length code) _ (omega arith),
          read_le-le_bytes 8 ts _ (omega arith),
          read_le-le_bytes 4 pid _ (omega arith),
          read_le-le_bytes 4 0 _ (omega arith),
          read_le-le_bytes 8 addr _ (omega arith),
          read_le-le_bytes 8 addr _ (omega arith),
          read_le-le_bytes 8 (length code) _ (omega arith),
          read_le-le_bytes 8 idx _ (omega arith),
          read_name-append name _ hn,
          read_bytes-append code rest,
          ==_refl (57 + length name + length code),
        )
        refl)
