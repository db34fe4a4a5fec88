-- ===== src/Entry/FromJson.antt =====
-- crates/bilbo-json/src/lib.rs: what `from_json` does with a document, from the text to the bytes in memory.
use bilbo.Base.{ℕ, ◌+◌, ◌*◌, ◌≤◌, ◌<◌, ◌≡◌, refl, ◌∙◌, true, ◌++◌, length, ok}
use bilbo.Json.Value.{Text, Json}
use bilbo.Json.Print.{Layout, IsBlank, print, is_valid, stops}
use bilbo.Json.RoundTrip.{parse-print}
use bilbo.Plan.{RecCell}
use bilbo.Machine.{Machine}
use bilbo.Machine.Frame.{Kept}
use bilbo.Platform.Linux.{Raw}
use bilbo.Resolve.{Resolved}
use bilbo.Resolve.Hits.{IsValid}
use bilbo.Interp.{run}
use bilbo.Interp.Accepts.{Roomy, accepts}
use bilbo.Interp.Accepts.Calls.{is_ok-result}
use bilbo.Interp.Accepts.Run.{run-accepts}
use bilbo.Interp.Frame.{run-Kept}
use bilbo.Interp.Value.{extent, is_separate, SeparateCells, holds}
use bilbo.Interp.Value.Agree.{Used}
use bilbo.Interp.Value.Fit.{extent-fits}
use bilbo.Interp.Value.Run.{cells-fit, run-Holds}
use bilbo.Dwarf.Index.{Site}
use bilbo.Entry.Found.{resolve-IsValid}
use bilbo.Entry.{Host, Session, interp_env, resolve, from_json}

module _ {ℓ} {E : Type ℓ} (host : Host) where
  -- A document that is printed in any layout, whose value the type of the local at `ptr` takes, is bound:
  -- `from_json` gives a result, the local and the blocks behind it hold the value, no other byte in use
  -- has changed, and the caches are valid for the next call.
  pub from_json-Holds :
      (raw : Raw) (ptr n : ℕ) (ses ses' : Session E) (m : Machine) (tk : Site) (r : Resolved E)
      (l : Layout) (v : Json) (rest : Text) (sizes : RecCell → ℕ)
      → IsValid host.process ses.caches
      → resolve host raw ptr ses m ≡ ok (tk, r, ses')
      → IsBlank l
      → is_valid v ≡ true
      → stops rest ≡ true
      → 3 * length (print l v) < host.parse_fuel + 3
      → Roomy host.std
      → accepts (interp_env host r.cells) host.run_fuel r.ty v ≡ true
      → SeparateCells sizes r.cells
      → is_separate sizes r.ty ≡ true
      → extent sizes r.ty ≤ n
      → Used m ptr n
      → (m' : Machine) × (from_json host raw (l.pad ++ (print l v ++ rest)) ptr ses m
          ≡ ok (ses', m'))
        × holds (interp_env host r.cells) host.run_fuel m'.mem ptr r.ty v
        × Kept ptr n m m'
        × IsValid host.process ses'.caches
  unfolding from_json
  from_json-Holds raw ptr n ses ses' m tk r l v rest sizes valid found blank good end fuel roomy
        takes cells separate room used =
      let env = interp_env host r.cells in
      let told = run-accepts env roomy host.run_fuel ptr r.ty v m in
      let (m', ran) = is_ok-result (run env host.run_fuel ptr r.ty v m) (told ∙ takes) in
      let reads = parse-print l v host.parse_fuel rest blank good end fuel in
      (
        m',
        rw found (rw reads (rw ran refl)),
        run-Holds env sizes cells host.run_fuel ptr n r.ty v m m' m'.mem separate room used ran
            (record { there = λ a h. refl; new = λ a h k. refl }),
        run-Kept env sizes (cells-fit sizes r.cells cells) host.run_fuel ptr n r.ty v m m'
            (extent-fits sizes r.ty n separate room) ran,
        resolve-IsValid host raw ptr ses ses' m tk r valid found,
      )
