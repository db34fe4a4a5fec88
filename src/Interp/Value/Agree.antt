-- ===== src/Interp/Value/Agree.antt =====
-- interp.rs: memory that still has what a run has written, to its destination and to the blocks that it
-- has allocated.
use bilbo.Base.{
  larger_le, ℕ, ◌+◌, ◌-◌, ◌≤◌, ◌≡◌, refl, ◌∙◌, inl, inr, Bool, true, false, [], ◌∷◌, arith, length,
  Bool-cases, and-both, or_right, ok, >>=-eq-ok,
}
use bilbo.Json.Value.{Text}
use bilbo.Plan.{SeqLayout}
use bilbo.Jit.Memory.{Memory, within, store}
use bilbo.Machine.{Allocator, Machine, set_mem, put_text, alloc}
use bilbo.Machine.Frame.{in_use, Kept, put_text-Kept, Fresh-outside, alloc-Fresh}
use bilbo.Interp.{Env, write_seq, alloc_copy}
use bilbo.Interp.Value.{apart, apart_seq, extent_seq, Word, TextAt, Words}

-- The bytes at `dst`, and those that are in use in `m'` and were not in `m`, are as in `m'`.
pub record Agree (m m' : Machine) (dst n : ℕ) (mem : Memory) : Type 0 where
  pub there : (a : ℕ) → within dst n a ≡ true → mem a ≡ m'.mem a
  pub new : (a : ℕ) → in_use m'.live a ≡ true → in_use m.live a ≡ false → mem a ≡ m'.mem a

-- The range is in use.
abbrev pub Used : Machine → (dst n : ℕ) → Type 0
Used m dst n = (a : ℕ) → within dst n a ≡ true → in_use m.live a ≡ true

pub Used-part :
    (m : Machine) (dst n d k : ℕ) → Used m dst n → dst ≤ d → d + k ≤ dst + n → Used m d k
Used-part m dst n d k used p q a h = used a (ground arith)

pub Used-Kept : {m m' : Machine} (dst n d k : ℕ) → Used m dst n → Kept d k m m' → Used m' dst n
Used-Kept dst n d k used kept a h = kept.live_kept a (used a h)

not-both : {b : Bool} → b ≡ true → b ≡ false → ⊥
not-both h k = cc

-- What was not in use later was not in use before.
unused_before :
    {m m' : Machine} {d k : ℕ}
    → Kept d k m m'
    → (a : ℕ) → in_use m'.live a ≡ false
    → in_use m.live a ≡ false
unused_before {m} kept a h = elim (Bool-cases (in_use m.live a)) [
  | inl before ↦ absurd (not-both (kept.live_kept a before) h)
  | inr not_before ↦ not_before
]

-- A second run inside the destination that does not touch what the first one wrote.
pub Agree-first :
    (dst n d k : ℕ) (m m1 m2 : Machine) (mem : Memory)
    → Used m dst n
    → dst ≤ d
    → d + k ≤ dst + n
    → ((a : ℕ) → within d k a ≡ true → in_use m1.live a ≡ true → m2.mem a ≡ m1.mem a)
    → Kept d k m m1
    → Kept dst n m1 m2
    → Agree m m2 dst n mem
    → Agree m m1 d k mem
Agree-first dst n d k m m1 m2 mem used p q same kept kept' agree = record {
  there = λ a h. agree.there a (ground arith) ∙ same a h (kept.live_kept a (used a (ground arith)));
  new = λ a h old.
      agree.new a (kept'.live_kept a h) old
      ∙ kept'.mem_kept a h (elim (Bool-cases (within dst n a)) [
        | inl inside ↦ absurd (not-both (used a inside) old)
        | inr outside ↦ outside
      ]);
}

pub Agree-second :
    (dst n d k e l : ℕ) (m m1 m2 : Machine) (mem : Memory)
    → dst ≤ e
    → e + l ≤ dst + n
    → Kept d k m m1
    → Agree m m2 dst n mem
    → Agree m1 m2 e l mem
Agree-second dst n d k e l m m1 m2 mem p q kept agree = record {
  there = λ a h. agree.there a (ground arith);
  new = λ a h old. agree.new a h (unused_before kept a old);
}

-- What is written to a block that was just allocated, before a write to the destination.
pub Agree-block :
    (std : Allocator) (size align p dst n : ℕ) (m m1 m2 m3 : Machine) (mem : Memory)
    → alloc std size align m ≡ ok (p, m1)
    → Used m dst n
    → Kept p size m1 m2
    → Kept dst n m2 m3
    → Agree m m3 dst n mem
    → Agree m1 m2 p size mem × Used m1 p size
Agree-block std size align p dst n m m1 m2 m3 mem e used kept kept' agree =
    let (fresh, after) = alloc-Fresh std size align p m m1 e in
    let block : Used m1 p size = λ a h. rw after (rw h refl) in
    let grown : (a : ℕ) → in_use m.live a ≡ true → in_use m1.live a ≡ true =
      λ a h. rw after (or_right _ h) in
    let not_old : (a : ℕ) → within p size a ≡ true → in_use m.live a ≡ false = λ a h.
      elim (Bool-cases (in_use m.live a)) [
        | inl before ↦ absurd (not-both h (Fresh-outside (p, size) m.live a fresh before))
        | inr unused ↦ unused
      ] in
    let outside : (a : ℕ) → in_use m.live a ≡ false → within dst n a ≡ false = λ a old.
      elim (Bool-cases (within dst n a)) [
        | inl inside ↦ absurd (not-both (used a inside) old)
        | inr far ↦ far
      ] in
    (
      record {
        there = λ a h.
            let here = kept.live_kept a (block a h) in
            agree.new a (kept'.live_kept a here) (not_old a h)
            ∙ kept'.mem_kept a here (outside a (not_old a h));
        new = λ a h old.
            let unused : in_use m.live a ≡ false = elim (Bool-cases (in_use m.live a)) [
              | inl before ↦ absurd (not-both (grown a before) old)
              | inr free ↦ free
            ] in
            agree.new a (kept'.live_kept a h) unused ∙ kept'.mem_kept a h (outside a unused);
      },
      block,
    )

-- A value of no bytes, before a write to the destination.
pub Agree-nothing :
    (p dst n : ℕ) (m m2 m3 : Machine) (mem : Memory)
    → Used m dst n
    → Kept dst n m2 m3
    → Agree m m3 dst n mem
    → Agree m m2 p 0 mem
Agree-nothing p dst n m m2 m3 mem used kept agree = record {
  there = λ a h. absurd (ground arith);
  new = λ a h old.
      agree.new a (kept.live_kept a h) old
      ∙ kept.mem_kept a h (elim (Bool-cases (within dst n a)) [
        | inl inside ↦ absurd (not-both (used a inside) old)
        | inr far ↦ far
      ]);
}

pub store-Word : (m : Memory) (w d v : ℕ) → Word (store m w v d) w d v
unfolding store
store-Word m w d v i h =
    let here : within d w (d + i) ≡ true = ground arith in
    let same : d + i - d ≡ i = omega arith in rw (here, same) refl

-- A store elsewhere.
pub store-Word_apart :
    (m : Memory) (w d v k e u : ℕ)
    → apart d w e k ≡ true
    → Word m w d v
    → Word (store m k u e) w d v
unfolding store
store-Word_apart m w d v k e u far word i h =
    let outside : within e k (d + i) ≡ false = ground arith in rw outside (word i h)

pub Word-Agree :
    (w d v dst n : ℕ) (m m' : Machine) (mem : Memory)
    → dst ≤ d
    → d + w ≤ dst + n
    → Agree m m' dst n mem
    → Word m'.mem w d v
    → Word mem w d v
Word-Agree w d v dst n m m' mem p q agree word i h = agree.there (d + i) (ground arith) ∙ word i h

pub shift_apart : (dst a n b k : ℕ) → apart a n b k ≡ true → apart (dst + a) n (dst + b) k ≡ true
shift_apart dst a n b k h = ground arith

-- The three words of a sequence.
pub write_seq-Words :
    (dst n : ℕ) (seq : SeqLayout) (p c l : ℕ) (m m0 : Machine) (mem : Memory)
    → extent_seq seq ≤ n
    → apart_seq seq ≡ true
    → Agree m0 (write_seq dst seq p c l m) dst n mem
    → Words mem dst seq p c l
write_seq-Words dst n seq p c l m m0 mem room far agree =
    let (hp, room') = larger_le (seq.ptr_off + 8) _ n room in
    let (hc, hl) = larger_le (seq.cap_off + 8) _ n room' in
    let (pc, far') = and-both (apart seq.ptr_off 8 seq.cap_off 8) _ far in
    let (pl, cl) = and-both (apart seq.ptr_off 8 seq.len_off 8) _ far' in
    let m1 : Memory = store m.mem 8 p (dst + seq.ptr_off) in
    let m2 : Memory = store m1 8 c (dst + seq.cap_off) in
    let ptr_word : Word (store m2 8 l (dst + seq.len_off)) 8 (dst + seq.ptr_off) p =
      store-Word_apart m2 8 _ p 8 _ l (shift_apart dst _ _ _ _ pl)
        (store-Word_apart m1 8 _ p 8 _ c (shift_apart dst _ _ _ _ pc) (store-Word m.mem 8 _ p)) in
    let cap_word : Word (store m2 8 l (dst + seq.len_off)) 8 (dst + seq.cap_off) c =
      store-Word_apart m2 8 _ c 8 _ l (shift_apart dst _ _ _ _ cl) (store-Word m1 8 _ c) in
    (
      Word-Agree 8 _ p dst n m0 _ mem (omega arith) (omega arith) agree ptr_word,
      Word-Agree 8 _ c dst n m0 _ mem (omega arith) (omega arith) agree cap_word,
      Word-Agree 8 _ l dst n m0 _ mem (omega arith) (omega arith) agree (store-Word m2 8 _ l),
    )

-- The bytes of a text in a block of their own.
pub alloc_copy-TextAt :
    (env : Env) (s : Text) (align p dst n : ℕ) (m m1 m2 : Machine) (mem : Memory)
    → alloc_copy env s align m ≡ ok (p, m1)
    → Used m dst n
    → Kept dst n m1 m2
    → Agree m m2 dst n mem
    → TextAt mem p s
unfolding alloc_copy put_text
alloc_copy-TextAt env [] align p dst n m m1 m2 mem e used kept agree i h = absurd (omega arith)
alloc_copy-TextAt env (c ∷ s) align p dst n m m1 m2 mem e used kept agree i h =
    let (r, er, e1) = >>=-eq-ok (alloc env.std (length (c ∷ s)) align m) _ e in
    let here : r.0 ≡ p = cc in
    let copied : set_mem (put_text r.1.mem r.0 (c ∷ s)) r.1 ≡ m1 = cc in
    let (block, room) =
      Agree-block env.std (length (c ∷ s)) align r.0 dst n m r.1
        (set_mem (put_text r.1.mem r.0 (c ∷ s)) r.1) m2 mem er used (put_text-Kept r.0 (c ∷ s) r.1)
        (rw copied kept) agree in
    let inside : within r.0 (length (c ∷ s)) (r.0 + i) ≡ true = ground arith in
    let same : r.0 + i - r.0 ≡ i = omega arith in
    rw (← here) (block.there (r.0 + i) inside ∙ rw (inside, same) refl)
