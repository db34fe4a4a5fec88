-- ===== src/Machine/Frame.antt =====
-- What a run leaves alone: the blocks in use and their bytes, but for a range that it may write.
use bilbo.Base.{
  ℕ, ◌+◌, ◌≤◌, ◌≡◌, refl, ◌∙◌, inl, inr, Bool, true, false, ◌||◌, List, [], ◌∷◌, arith, ◌==◌,
  length, Bool-cases, or_right, ok, >>=-eq-ok,
}
use bilbo.Json.Value.{Text}
use bilbo.Jit.Memory.{within, store}
use bilbo.Machine.{
  Block, Fresh, Allocator, Machine, set_mem, write, put_text, zero_bytes, layout, alloc,
}

-- The address lies in one of the blocks.
abbrev pub in_use : List Block → ℕ → Bool
in_use [] a = false
in_use (b ∷ live) a = within b.0 b.1 a || in_use live a

-- Blocks stay in use, and their bytes outside of the `n` bytes at `dst` stay as they are.
pub record Kept (dst n : ℕ) (m m' : Machine) : Type 0 where
  pub live_kept : (a : ℕ) → in_use m.live a ≡ true → in_use m'.live a ≡ true
  pub mem_kept : (a : ℕ) → in_use m.live a ≡ true → within dst n a ≡ false → m'.mem a ≡ m.mem a

pub Kept-refl : (dst n : ℕ) (m : Machine) → Kept dst n m m
Kept-refl dst n m = record { live_kept = λ a h. h; mem_kept = λ a h k. refl }

pub Kept-trans :
    {dst n : ℕ} {m m' m'' : Machine} → Kept dst n m m' → Kept dst n m' m'' → Kept dst n m m''
Kept-trans p q = record {
  live_kept = λ a h. q.live_kept a (p.live_kept a h);
  mem_kept = λ a h k. q.mem_kept a (p.live_kept a h) k ∙ p.mem_kept a h k;
}

-- A part of the range.
pub Kept-part :
    (d w dst n : ℕ) {m m' : Machine} → dst ≤ d → d + w ≤ dst + n → Kept d w m m' → Kept dst n m m'
Kept-part d w dst n p q kept = record {
  live_kept = kept.live_kept;
  mem_kept = λ a h k. kept.mem_kept a h (ground arith);
}

-- An empty range.
pub Kept-nothing : (d dst n : ℕ) {m m' : Machine} → Kept d 0 m m' → Kept dst n m m'
Kept-nothing d dst n kept = record {
  live_kept = kept.live_kept;
  mem_kept = λ a h k. kept.mem_kept a h (ground arith);
}

pub write-Kept :
    (w d v dst n : ℕ) (m : Machine) → dst ≤ d → d + w ≤ dst + n → Kept dst n m (write w d v m)
unfolding store
write-Kept w d v dst n m p q = record {
  live_kept = λ a h. h;
  mem_kept = λ a h k. let out : within d w a ≡ false = ground arith in rw out refl;
}

pub put_text-Kept :
    (d : ℕ) (s : Text) (m : Machine) → Kept d (length s) m (set_mem (put_text m.mem d s) m)
unfolding put_text
put_text-Kept d s m = record { live_kept = λ a h. h; mem_kept = λ a h k. rw k refl }

pub zero_bytes-Kept :
    (d w dst n : ℕ) (m : Machine)
    → dst ≤ d
    → d + w ≤ dst + n
    → Kept dst n m (set_mem (zero_bytes m.mem d w) m)
unfolding zero_bytes
zero_bytes-Kept d w dst n m p q = record {
  live_kept = λ a h. h;
  mem_kept = λ a h k. let out : within d w a ≡ false = ground arith in rw out refl;
}

-- A fresh block has no address that is in use.
pub Fresh-outside :
    (b : Block) (live : List Block) (a : ℕ)
    → Fresh b live
    → in_use live a ≡ true
    → within b.0 b.1 a ≡ false
Fresh-outside (p, n) [] a h k = cc
Fresh-outside (p, n) ((q, w) ∷ live) a h k = elim (Bool-cases (within q w a)) [
  | inl here ↦ ground (arith, h.0)
  | inr there ↦ Fresh-outside (p, n) live a h.1 (rw there at k)
]

place-Fresh :
    (std : Allocator) (size align p : ℕ) (live : List Block)
    → (std.place live size align == 0) ≡ false
    → std.place live size align ≡ p
    → Fresh (p, size) live
place-Fresh std size align p live h e =
    rw (← e) (std.place_fresh live size align (λ z. ground arith))

-- A block from the allocator is fresh, and in use from then on.
pub alloc-Fresh :
    (std : Allocator) (size align p : ℕ) (m m1 : Machine)
    → alloc std size align m ≡ ok (p, m1)
    → Fresh (p, size) m.live × (m1 ≡ record { mem = m.mem; live = (p, size) ∷ m.live })
unfolding alloc
alloc-Fresh std size align p m m1 e =
    let (l, el, e1) = >>=-eq-ok (layout size align) _ e in
    elim (Bool-cases (size == 0)) [
      | inl empty ↦ absurd (cc (rw empty at e1))
      | inr some_size ↦ elim (Bool-cases (std.place m.live size align == 0)) [
        | inl null ↦ absurd (cc (rw (some_size, null) at e1))
        | inr placed ↦
            let done = rw (some_size, placed) at e1 in
            let here : std.place m.live size align ≡ p = cc in
            (place-Fresh std size align p m.live placed here, rw (← here) (cc))
      ]
    ]

-- What is written to a block that was just allocated is not seen from outside.
pub alloc-Kept :
    (std : Allocator) (size align p dst n : ℕ) (m m1 m2 : Machine)
    → alloc std size align m ≡ ok (p, m1)
    → Kept p size m1 m2
    → Kept dst n m m2
alloc-Kept std size align p dst n m m1 m2 e kept =
    let (fresh, after) = alloc-Fresh std size align p m m1 e in
    let still : (a : ℕ) → in_use m.live a ≡ true → in_use m1.live a ≡ true =
      λ a h. rw after (or_right _ h) in
    record {
      live_kept = λ a h. kept.live_kept a (still a h);
      mem_kept = λ a h k.
          kept.mem_kept a (still a h) (Fresh-outside (p, size) m.live a fresh h) ∙ rw after refl;
    }
