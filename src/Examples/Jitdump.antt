-- ===== src/Examples/Jitdump.antt =====
-- jitdump.rs on two functions.
use bilbo.Base.{◌≡◌, refl, [], ◌∷◌, ◌++◌, none, some, arith, bytes, length, ok}
use bilbo.Json.Value.{Text}
use bilbo.Jitdump.{State, header}
use bilbo.Jitdump.Read.{is_name}
use bilbo.Jitdump.Log.{Call, register_all, entries, Fit, read_records, register_all-read_records}

abbrev first : Call
first = record { time = 10; name = bytes "parse_2"; addr = 0x1000; code = 0x90 ∷ 0 ∷ 0xc3 ∷ [] }

abbrev second : Call
second = record { time = 11; name = bytes "parse_rec_1"; addr = 0x2000; code = 0xc3 ∷ [] }

both-Fit : Fit 0 (first ∷ second ∷ [])
unfolding is_name
both-Fit = (
  omega arith,
  omega arith,
  omega arith,
  refl,
  omega arith,
  (omega arith, omega arith, omega arith, refl, omega arith, tt),
)

register_all-read_records_example :
    (st : State) × (records : Text) × (register_all (some tt) 62 4711 (first ∷ second ∷ []) none
      ≡ some st)
    × (st.file ≡ header 62 4711 ++ records)
    × (length (header 62 4711) ≡ 40)
    × (read_records 2 records ≡ ok (entries 4711 0 (first ∷ second ∷ []), []))
register_all-read_records_example =
    register_all-read_records 62 4711 first (second ∷ []) (omega arith) both-Fit
