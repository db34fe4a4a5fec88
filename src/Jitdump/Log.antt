-- ===== src/Jitdump/Log.antt =====
-- jitdump.rs: the file after any number of calls of `register`.
use bilbo.Base.{
  ℕ, zero, suc, ◌+◌, ◌^◌, ◌<◌, ◌≡◌, refl, sym, ◌∙◌, true, List, [], ◌∷◌, ◌++◌, append_assoc,
  append-nil, Option, none, some, length, Outcome, ok, ◌>>=◌,
}
use bilbo.Json.Value.{Text}
use bilbo.Jitdump.{State, header, total_size, record_bytes, append_record, register}
use bilbo.Jitdump.Read.{is_name, Entry, entry, read_record, read_record-record_bytes}

-- One call of `register`, with the time at which it is made.
pub record Call : Type 0 where
  pub time : ℕ
  pub name : Text
  pub addr : ℕ
  pub code : Text

unfoldable pub register_all :
    (opened : Option (Unit {0})) → (machine pid : ℕ) → List Call → Option State → Option State
unfolding register
register_all opened machine pid [] st = st
register_all opened machine pid (c ∷ calls) st =
    register_all opened machine pid calls
      (register opened machine c.time pid c.name c.addr c.code st)

-- What a profiler is to learn.
unfoldable pub entries : (pid idx : ℕ) → List Call → List Entry
entries pid idx [] = []
entries pid idx (c ∷ calls) =
    entry c.time pid c.addr idx c.name c.code ∷ entries pid (idx + 1) calls

-- Names without a NUL, and numbers of the widths that the format has.
abbrev pub Fit : (idx : ℕ) → List Call → Type 0
Fit idx [] = Unit
Fit idx (c ∷ calls) =
    (c.time < 2 ^ 64)
    × (c.addr < 2 ^ 64)
    × (idx < 2 ^ 64)
    × (is_name c.name ≡ true)
    × (total_size c.name c.code < 2 ^ 32)
    × Fit (idx + 1) calls

-- So many records.
unfoldable pub read_records : ℕ → Text → Outcome (List Entry × Text)
read_records zero s = ok ([], s)
read_records (suc n) s = do (e, s1) ← read_record s; (es, s2) ← read_records n s1; ok (e ∷ es, s2)

abbrev pub count : List Call → ℕ
count [] = 0
count (c ∷ calls) = suc (count calls)

-- The records that the calls append.
unfoldable pub log : (pid idx : ℕ) → List Call → Text
log pid idx [] = []
log pid idx (c ∷ calls) =
    record_bytes c.time pid c.addr idx c.name c.code ++ log pid (idx + 1) calls

register_all-log :
    (opened : Option (Unit {0})) (machine pid : ℕ) (calls : List Call) (st : State)
    → (st' : State) × (register_all opened machine pid calls (some st) ≡ some st')
      × (st'.file ≡ st.file ++ log pid st.index calls)
unfolding register_all log
register_all-log opened machine pid [] st = (st, refl, sym (append-nil st.file))
register_all-log opened machine pid (c ∷ calls) st =
    let (last, e, file) =
      register_all-log opened machine pid calls
        (append_record c.time pid c.name c.addr c.code st) in
    (
      last,
      e,
      file
          ∙ append_assoc st.file (record_bytes c.time pid c.addr st.index c.name c.code)
              (log pid (st.index + 1) calls),
    )

read_records-log :
    (pid idx : ℕ) (calls : List Call)
    → pid < 2 ^ 32
    → Fit idx calls
    → read_records (count calls) (log pid idx calls) ≡ ok (entries pid idx calls, [])
unfolding read_records log entries
read_records-log pid idx [] hp fit = refl
read_records-log pid idx (c ∷ calls) hp fit =
    rw
      (
        read_record-record_bytes c.time pid c.addr idx c.name c.code (log pid (idx + 1) calls) fit.0
            hp fit.1 fit.2 fit.3 fit.4,
        read_records-log pid (idx + 1) calls hp fit.5,
      )
      refl

-- After one or more calls of `register`, the first of which could create the file, this is the header of
-- 40 bytes and the records, which a reader of the format reads back: each function once, in the order
-- of the calls, with the indices 0, 1, 2 and so on. The names have no NUL, no record is as long as 2^32
-- bytes, and the other numbers fit in their widths.
pub register_all-read_records :
    (machine pid : ℕ) (c : Call) (calls : List Call)
    → pid < 2 ^ 32
    → Fit 0 (c ∷ calls)
    → (st : State) × (records : Text) × (register_all (some tt) machine pid (c ∷ calls) none
        ≡ some st)
      × (st.file ≡ header machine pid ++ records)
      × (length (header machine pid) ≡ 40)
      × (read_records (count (c ∷ calls)) records ≡ ok (entries pid 0 (c ∷ calls), []))
unfolding register_all header
register_all-read_records machine pid c calls hp fit =
    let (last, e, file) =
      register_all-log (some tt) machine pid (c ∷ calls)
        (record { file = header machine pid; index = 0 }) in
    (last, log pid 0 (c ∷ calls), e, file, refl, read_records-log pid 0 (c ∷ calls) hp fit)
