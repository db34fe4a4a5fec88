-- ===== src/Jit/Strings/Span.antt =====
-- `rt_strscan` against the scan byte by byte.
use mathlib.Core.Option
use mathlib.Core.Path.{subst}
use bilbo.Base.{
  ℕ, zero, suc, ◌+◌, ◌<◌, ◌≡◌, refl, Bool, true, false, ◌||◌, ◌⊎◌, inl, inr, Bool-cases, Option,
  none, some, [], ◌∷◌, ◌++◌, append_assoc, arith, ◌==◌, if◌then◌else◌, length, take, drop,
  get_elem?, Outcome, ok,
}
use bilbo.Json.Value.{Text}
use bilbo.Jit.Shims.{Memchr, Span, strscan_loop, rt_strscan}

abbrev pub span_of : Text → Bool → Text → Span
span_of s e r = record { body = s; had_escape = e; after = r }

abbrev pub extend : ℕ → Bool → Span → Span
extend c esc s = span_of (c ∷ s.body) (esc || s.had_escape) s.after

-- The body up to the first quote that no backslash hides, or up to the end of the input.
unfoldable pub span : (hidden : Bool) → Text → Span
span _ [] = span_of [] false []
span true (c ∷ b) = extend c false (span false b)
span false (c ∷ b) =
    let rest = extend c (c == 0x5c) (span (c == 0x5c) b) in
    if c == b'"' then span_of [] false b else rest

-- What a hit at `off` says of the scan.
record Hit (hay : Text) (off : ℕ) : Type 0 where
  byte : ℕ
  found : get_elem? hay off ≡ some byte
  splits :
      (((byte == b'"') ≡ true)
        × (span false hay ≡ span_of (take off hay) false (drop (suc off) hay)))
      ⊎ (((byte == b'"') ≡ false)
          × (let rest = span false (drop (suc (suc off)) hay) in
              span false hay ≡ span_of (take (suc (suc off)) hay ++ rest.body) true rest.after))
  shorter : length (drop (suc (suc off)) hay) < length hay

Split : Text → Option ℕ → Type 0
Split hay none = span false hay ≡ span_of hay false []
Split hay (some off) = Hit hay off

hop_over : (c : ℕ) (b : Text) → (c == 0x5c) ≡ true → (c == b'"') ≡ false → Hit (c ∷ b) 0
unfolding span
hop_over c [] h k = record {
  byte = c;
  found = refl;
  splits = inr (k, rw (k, h));
  shorter = omega arith;
}
hop_over c (d ∷ b) h k = record {
  byte = c;
  found = refl;
  splits = inr (k, rw (k, h));
  shorter = omega arith;
}

Hit-cons :
    (c : ℕ) (b : Text) (off : ℕ)
    → (c == b'"') ≡ false
    → (c == 0x5c) ≡ false
    → Hit b off
    → Hit (c ∷ b) (suc off)
unfolding span
Hit-cons c b off h k hit = record {
  byte = hit.byte;
  found = hit.found;
  splits = elim hit.splits [
    | inl (quote, e) ↦ inl (quote, rw (h, k) (rw e))
    | inr (hop, e) ↦ inr (hop, rw (h, k) (rw e))
  ];
  shorter = omega (arith, hit.shorter);
}

Split-cons :
    (c : ℕ) (b : Text) (o : Option ℕ)
    → (c == b'"') ≡ false
    → (c == 0x5c) ≡ false
    → Split b o
    → Split (c ∷ b) (Option.map suc o)
unfolding Split span
Split-cons c b none h k e = rw (h, k) (rw e)
Split-cons c b (some off) h k hit = Hit-cons c b off h k hit

Split-quote : (c : ℕ) (b : Text) → (c == b'"') ≡ true → Hit (c ∷ b) 0
unfolding span
Split-quote c [] h = record {
  byte = c;
  found = refl;
  splits = inl (h, rw h);
  shorter = omega arith;
}
Split-quote c (d ∷ b) h = record {
  byte = c;
  found = refl;
  splits = inl (h, rw h);
  shorter = omega arith;
}

or-false : (b : Bool) → (b || false) ≡ b
or-false true = refl
or-false false = refl

or-true : (b : Bool) → (b || true) ≡ true
or-true true = refl
or-true false = refl

module _ (crate : Memchr) where
  open crate use {memchr2, memchr2_nil, memchr2_cons}

  span-Split : (hay : Text) → Split hay (memchr2 b'"' 0x5c hay)
  unfolding span Split
  span-Split [] = rw (memchr2_nil b'"' 0x5c)
  span-Split (c ∷ b) = rw (memchr2_cons b'"' 0x5c c b) (elim (Bool-cases (c == b'"')) [
    | inl quote ↦ rw quote (Split-quote c b quote)
    | inr other ↦ elim (Bool-cases (c == 0x5c)) [
      | inl hop ↦ rw (other, hop) (hop_over c b hop other)
      | inr plain ↦ rw (other, plain) (Split-cons c b _ other plain (span-Split b))
    ]
  ])

  -- From the loop's state: what it has seen, and the scan of the rest.
  resume : Text → Bool → Span → Outcome Span
  resume seen esc s = ok (span_of (seen ++ s.body) (esc || s.had_escape) s.after)

  -- The invariant of the loop, and one round of it at each answer of `memchr2`.
  Continues : ℕ → Type 0
  Continues f =
      (seen : Text) (esc : Bool) (hay : Text)
      → length hay < f
      → strscan_loop crate f seen esc hay ≡ resume seen esc (span false hay)

  loop-none :
      (f : ℕ) (seen : Text) (esc : Bool) (hay : Text)
      → memchr2 b'"' 0x5c hay ≡ none
      → Split hay none
      → strscan_loop crate (suc f) seen esc hay ≡ resume seen esc (span false hay)
  unfolding strscan_loop resume Split
  loop-none f seen esc hay e s = rw (e, strscan_loop) (rw s (rw (or-false esc)))

  loop-some :
      (f : ℕ) (seen : Text) (esc : Bool) (hay : Text) (off : ℕ)
      → memchr2 b'"' 0x5c hay ≡ some off
      → Hit hay off
      → Continues f
      → length hay < suc f
      → strscan_loop crate (suc f) seen esc hay ≡ resume seen esc (span false hay)
  unfolding strscan_loop resume Continues
  loop-some f seen esc hay off e hit ih h = elim hit.splits [
    | inl (quote, s) ↦ rw (e, strscan_loop) (rw hit.found (rw quote (rw s (rw (or-false esc)))))
    | inr (hop, s) ↦
        let next =
          ih (seen ++ take (suc (suc off)) hay) true (drop (suc (suc off)) hay)
            (omega (arith, hit.shorter)) in
        rw (e, strscan_loop)
          (rw hit.found (rw hop (rw s (rw next (rw (append_assoc, or-true esc))))))
  ]

  strscan_loop-span : (f : ℕ) → Continues f
  unfolding Continues Split
  strscan_loop-span zero seen esc hay h = absurd (omega arith)
  strscan_loop-span (suc f) seen esc hay h = go (memchr2 b'"' 0x5c hay) refl (strscan_loop-span f)
    where
      go :
          (o : Option ℕ)
          → memchr2 b'"' 0x5c hay ≡ o
          → Continues f
          → strscan_loop crate (suc f) seen esc hay ≡ resume seen esc (span false hay)
      go none e ih = loop-none f seen esc hay e (subst (Split hay) e (span-Split hay))
      go (some off) e ih =
          loop-some f seen esc hay off e (subst (Split hay) e (span-Split hay)) ih h

  -- The hops lead to the same span as a scan byte by byte, whatever byte `q` stands for the quote.
  pub rt_strscan-span : (q : ℕ) (s : Text) → rt_strscan crate (q ∷ s) ≡ ok (span false s)
  unfolding rt_strscan resume Continues
  rt_strscan-span q s = strscan_loop-span (length s + 1) [] false s (omega arith)
