-- ===== src/Entry/Found.antt =====
-- crates/bilbo/src/lib.rs: what `resolve` takes from the caches and leaves in them.
use bilbo.Base.{ℕ, ◌≡◌, refl, none, some, ◌⊎◌, inl, inr, Outcome, ok, >>=-eq-ok}
use bilbo.Dwarf.Index.{Site}
use bilbo.Machine.{Machine}
use bilbo.Platform.{Caller}
use bilbo.Platform.Linux.{Raw, caller_pc, unwind}
use bilbo.Resolve.{Resolved, Caches, find_l2, Process, resolved}
use bilbo.Resolve.Hits.{
  IsValid, resolved-IsValid, resolved-cases, or_classify-present, or_classify-cases,
  classified-bare, find_l2-cons,
}
use bilbo.Entry.{Host, Session, load_word, caller_of, resolve}

module _ {ℓ} {E : Type ℓ} (host : Host) where
  -- A call of `resolved` stands behind it.
  pub resolve-resolved :
      (raw : Raw) (ptr : ℕ) (ses ses' : Session E) (m : Machine) (tk : Site) (r : Resolved E)
      → resolve host raw ptr ses m ≡ ok (tk, r, ses')
      → (pc : ℕ) × ((unwound : Outcome Caller) × (resolved host.process pc unwound ptr ses.caches
            ≡ ok (tk, r, ses'.caches)))
  unfolding resolve
  resolve-resolved raw ptr ses ses' m tk r e =
      let ((pc, memo), e1, e2) =
        >>=-eq-ok (caller_pc host.os host.checked (load_word m.mem) raw ses.memo) _ e in
      let ((k, q, caches), e3, e4) =
        >>=-eq-ok
          (resolved host.process pc
            (caller_of (unwind host.os host.checked (load_word m.mem) raw memo)) ptr ses.caches)
          _ e2 in
      let same_caches : ses'.caches ≡ caches = cc (e4) in
      let same_key : k ≡ tk = cc (e4) in
      let same_entry : q ≡ r = cc (e4) in
      (
        pc,
        (
          caller_of (unwind host.os host.checked (load_word m.mem) raw memo),
          rw same_caches (rw (← same_key) (rw (← same_entry) e3)),
        ),
      )

  pub resolve-IsValid :
      (raw : Raw) (ptr : ℕ) (ses ses' : Session E) (m : Machine) (tk : Site) (r : Resolved E)
      → IsValid host.process ses.caches
      → resolve host raw ptr ses m ≡ ok (tk, r, ses')
      → IsValid host.process ses'.caches
  resolve-IsValid raw ptr ses ses' m tk r valid e =
      let (pc, (unwound, e')) = resolve-resolved raw ptr ses ses' m tk r e in
      (resolved-IsValid host.process pc ptr unwound ses.caches ses'.caches tk r valid e').1

module _ {ℓ} {E : Type ℓ} (p : Process) where
  -- The entry that is returned is in the cache.
  pub resolved-present :
      (pc ptr : ℕ) (unwound : Outcome Caller) (s s' : Caches E) (tk : Site) (r : Resolved E)
      → resolved p pc unwound ptr s ≡ ok (tk, r, s')
      → find_l2 tk s'.l2 ≡ some r
  resolved-present pc ptr unwound s s' tk r e = elim (resolved-cases p pc ptr unwound s s' tk r e) [
    | inl (known, hit, same_caches) ↦ rw same_caches hit
    | inr (miss, made, front) ↦ or_classify-present p tk s.l2 s'.l2 r made
  ]

  -- An entry that is in the cache then was there before, or has no artifact.
  pub resolved-old :
      (pc ptr : ℕ) (unwound : Outcome Caller) (s s' : Caches E) (tk k : Site) (r q : Resolved E)
      → resolved p pc unwound ptr s ≡ ok (tk, r, s')
      → find_l2 k s'.l2 ≡ some q
      → (find_l2 k s.l2 ≡ some q) ⊎ (q.ext ≡ none)
  resolved-old pc ptr unwound s s' tk k r q e there =
      elim (resolved-cases p pc ptr unwound s s' tk r e) [
        | inl (known, hit, same_caches) ↦ inl (rw same_caches at there)
        | inr (miss, made, front) ↦ elim (or_classify-cases p tk s.l2 s'.l2 r made) [
          | inl (old, same_list) ↦ inl (rw same_list at there)
          | inr (missed, new, grown) ↦
              let bare_entry = classified-bare p tk r new in
              elim (find_l2-cons tk k r q s.l2 (rw grown at there)) [
                | inl (same_key, same_entry) ↦ inr (rw (← same_entry) (rw (← bare_entry) refl))
                | inr old ↦ inl old
              ]
        ]
      ]
