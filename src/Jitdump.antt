-- ===== src/Jitdump.antt =====
-- crates/bilbo-json/src/jitdump.rs: the dump that names the compiled code for profilers. Both hosts are
-- little-endian. The clock and the process id are arguments; a write to the file takes all its bytes.
pub mod Log
pub mod Read
use bilbo.Base.{
  ℕ, zero, suc, ◌+◌, ◌*◌, ◌/◌, ◌%◌, ◌^◌, Option, none, some, List, [], ◌∷◌, ◌++◌, length,
}
use bilbo.Json.Value.{Text}

-- `to_ne_bytes` of a number of `w` bytes.
unfoldable pub le_bytes : (w v : ℕ) → Text
le_bytes zero v = []
le_bytes (suc w) v = v % 256 ∷ le_bytes w (v / 256)

-- `State`: what the file holds, and the index of the next function.
pub record State : Type 0 where
  pub file : Text
  pub index : ℕ

-- "JiTD".
abbrev pub jitdump_magic : ℕ
jitdump_magic = 0x4a695444

abbrev pub jit_code_load : ℕ
jit_code_load = 0

-- The global header, of 40 bytes.
unfoldable pub header : (machine pid : ℕ) → Text
unfolding le_bytes
header machine pid =
    le_bytes 4 jitdump_magic
    ++ (le_bytes 4 1
        ++ (le_bytes 4 40
            ++ (le_bytes 4 machine
                ++ (le_bytes 4 0 ++ (le_bytes 4 pid ++ (le_bytes 8 0 ++ le_bytes 8 0))))))

-- `state()`: none where the file could not be opened.
unfoldable pub state :
    (opened : Option (Unit {0})) → (machine pid : ℕ) → Option State → Option State
unfolding header
state opened machine pid (some st) = some st
state none machine pid none = none
state (some u) machine pid none = some (record { file = header machine pid; index = 0 })

-- The size of a record: a prefix of 16 bytes, 40 bytes, the name, a NUL and the code.
abbrev pub total_size : (name code : Text) → ℕ
total_size name code = 16 + 40 + length name + 1 + length code

unfoldable pub record_bytes : (ts pid addr idx : ℕ) → (name code : Text) → Text
unfolding le_bytes
record_bytes ts pid addr idx name code =
    le_bytes 4 jit_code_load
    ++ (le_bytes 4 (total_size name code % 2 ^ 32)
        ++ (le_bytes 8 ts
            ++ (le_bytes 4 pid
                ++ (le_bytes 4 0
                    ++ (le_bytes 8 addr
                        ++ (le_bytes 8 addr
                            ++ (le_bytes 8 (length code)
                                ++ (le_bytes 8 idx ++ (name ++ 0 ∷ code)))))))))

-- One more record in the file.
unfoldable pub append_record :
    (ts pid : ℕ) → (name : Text) → (addr : ℕ) → (code : Text) → State → State
unfolding record_bytes
append_record ts pid name addr code st = record {
  file = st.file ++ record_bytes ts pid addr st.index name code;
  index = st.index + 1;
}

unfoldable pub register :
    (opened : Option (Unit {0}))
    → (machine ts pid : ℕ) → (name : Text) → (addr : ℕ) → (code : Text) → Option State
    → Option State
unfolding state append_record
register opened machine ts pid name addr code st = elim (state opened machine pid st) [
  | none ↦ none
  | some s ↦ some (append_record ts pid name addr code s)
]
