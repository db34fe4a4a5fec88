-- ===== src/Jit/Unescape/Length.antt =====
-- jit.rs: what `rt_unescape` decodes is not longer than the body of the string.
use bilbo.Base.{
  ℕ, zero, suc, ◌+◌, ◌-◌, ◌*◌, ◌≤◌, ◌≡◌, inl, inr, ◌&&◌, [], ◌∷◌, ◌++◌, arith, lengths, leb, ◌==◌,
  length, drop, Bool-cases, ok, >>=-eq-ok,
}
use bilbo.Json.Value.{Text}
use bilbo.Jit.Shims.{Span}
use bilbo.Jit.Scan.{build_str}
use bilbo.Jit.Unescape.{
  between, u4, char_or_replacement, encode_utf8, Decoded, decoded, pair, escape_sequence, round,
  unescape_loop, rt_unescape,
}

encode_utf8-length : (cp : ℕ) → length (encode_utf8 cp) ≤ 4
unfolding encode_utf8
encode_utf8-length cp = ground arith

-- Four bytes are read.
u4-length : (s : Text) (n : ℕ) → u4 s ≡ ok n → 4 ≤ length s
unfolding u4
u4-length (a ∷ b ∷ c ∷ d ∷ s) n e = omega arith
u4-length [] n e = absurd (cc)
u4-length (a ∷ []) n e = absurd (cc)
u4-length (a ∷ b ∷ []) n e = absurd (cc)
u4-length (a ∷ b ∷ c ∷ []) n e = absurd (cc)

-- An escape yields no more bytes than it takes with its backslash, and takes no more than there are.
record Small (room : ℕ) (d : Decoded) : Type 0 where
  short : length d.out ≤ suc d.used
  inside : d.used ≤ room

decoded_inj : {d d' : Decoded} → ok d ≡ ok d' → d ≡ d'
decoded_inj e = cc

alone-Small :
    (cp room : ℕ) (d : Decoded)
    → 5 ≤ room
    → ok (decoded (encode_utf8 (char_or_replacement cp)) 5) ≡ ok d
    → Small room d
alone-Small cp room d h e =
    let small = encode_utf8-length (char_or_replacement cp) in
    rw (← decoded_inj e) (record { short = omega (arith, small); inside = h })

pair-Small :
    (cp : ℕ) (rest : Text) (room : ℕ) (d : Decoded)
    → 5 + length rest ≤ room
    → pair cp rest ≡ ok d
    → Small room d
unfolding pair
pair-Small cp [] room d h e = alone-Small cp room d (omega arith) e
pair-Small cp (a ∷ []) room d h e = alone-Small cp room d (omega arith) e
pair-Small cp (a ∷ b ∷ rest) room d h e =
    elim (Bool-cases
      (between 0xd800 0xdbff cp && (leb 6 (length (a ∷ b ∷ rest)) && (a == 0x5c && b == b'u')))) [
        | inr apart ↦ alone-Small cp room d (omega arith) (rw apart at e)
        | inl high ↦
            let (lo, el, e1) = >>=-eq-ok (u4 rest) _ (rw high at e) in
            let four = u4-length rest lo el in
            elim (Bool-cases (between 0xdc00 0xdfff lo)) [
              | inl low ↦
                  let one : ℕ =
                    char_or_replacement (0x10000 + (cp - 0xd800) * 1024 + (lo - 0xdc00)) in
                  let done : ok (decoded (encode_utf8 one) 11) ≡ ok d = rw low at e1 in
                  let small = encode_utf8-length one in
                  rw (← decoded_inj done)
                    (record { short = omega (arith, small); inside = omega arith })
              | inr lone ↦ alone-Small cp room d (omega arith) (rw lone at e1)
            ]
      ]

drop_four : (s : Text) → 4 ≤ length s → 4 + length (drop 4 s) ≡ length s
drop_four (a ∷ b ∷ c ∷ d ∷ s) h = omega arith
drop_four [] h = absurd (omega arith)
drop_four (a ∷ []) h = absurd (omega arith)
drop_four (a ∷ b ∷ []) h = absurd (omega arith)
drop_four (a ∷ b ∷ c ∷ []) h = absurd (omega arith)

one-Small : (c room : ℕ) (d : Decoded) → 1 ≤ room → ok (decoded (c ∷ []) 1) ≡ ok d → Small room d
one-Small c room d h e = rw (← decoded_inj e) (record { short = omega arith; inside = h })

escape_sequence-Small :
    (c : ℕ) (rest : Text) (d : Decoded)
    → escape_sequence c rest ≡ ok d
    → Small (suc (length rest)) d
unfolding escape_sequence
escape_sequence-Small c rest d e = elim (Bool-cases (c == b'n')) [
  | inl n ↦ one-Small 0x0a _ d (omega arith) (rw n at e)
  | inr n ↦ elim (Bool-cases (c == b't')) [
    | inl t ↦ one-Small 0x09 _ d (omega arith) (rw (n, t) at e)
    | inr t ↦ elim (Bool-cases (c == b'r')) [
      | inl r ↦ one-Small 0x0d _ d (omega arith) (rw (n, t, r) at e)
      | inr r ↦ elim (Bool-cases (c == b'b')) [
        | inl b ↦ one-Small 0x08 _ d (omega arith) (rw (n, t, r, b) at e)
        | inr b ↦ elim (Bool-cases (c == b'f')) [
          | inl f ↦ one-Small 0x0c _ d (omega arith) (rw (n, t, r, b, f) at e)
          | inr f ↦ elim (Bool-cases (c == b'u')) [
            | inr u ↦ one-Small c _ d (omega arith) (rw (n, t, r, b, f, u) at e)
            | inl u ↦
                let (cp, ec, e1) = >>=-eq-ok (u4 rest) _ (rw (n, t, r, b, f, u) at e) in
                let four = drop_four rest (u4-length rest cp ec) in
                pair-Small cp (drop 4 rest) _ d (omega arith) e1
          ]
        ]
      ]
    ]
  ]
]

round-Small : (b : ℕ) (s : Text) (d : Decoded) → round b s ≡ ok d → Small (length s) d
unfolding round
round-Small b [] d e = elim (Bool-cases (b == 0x5c)) [
  | inl slash ↦
      rw (← decoded_inj (rw slash at e)) (record { short = omega arith; inside = omega arith })
  | inr plain ↦
      rw (← decoded_inj (rw plain at e)) (record { short = omega arith; inside = omega arith })
]
round-Small b (c ∷ rest) d e = elim (Bool-cases (b == 0x5c)) [
  | inl slash ↦ escape_sequence-Small c rest d (rw slash at e)
  | inr plain ↦
      rw (← decoded_inj (rw plain at e)) (record { short = omega arith; inside = omega arith })
]

unescape_loop-length :
    (k : ℕ) (s t : Text) → k ≤ length s → unescape_loop k s ≡ ok t → length t + k ≤ length s
unfolding unescape_loop
unescape_loop-length zero [] t h e = let empty : [] ≡ t = cc in rw (← empty) (omega arith)
unescape_loop-length (suc k) [] t h e = absurd (omega arith)
unescape_loop-length (suc k) (b ∷ s) t h e =
    let rest = unescape_loop-length k s t (omega arith) e in omega arith
unescape_loop-length zero (b ∷ s) t h e =
    let (d, ed, e1) = >>=-eq-ok (round b s) _ e in
    let (rest, er, e2) = >>=-eq-ok (unescape_loop d.used s) _ e1 in
    let small = round-Small b s d ed in
    let below = unescape_loop-length d.used s rest small.inside er in
    let done : d.out ++ rest ≡ t = cc in rw (← done) (omega (lengths, small.short, below))

-- The text of an owned string has room in as many bytes as the body of the string.
pub build_str-length : (s : Span) (t : Text) → build_str s ≡ ok t → length t ≤ length s.body
unfolding build_str rt_unescape
build_str-length s t e = elim (Bool-cases s.had_escape) [
  | inl escaped ↦
      let room = unescape_loop-length 0 s.body t (omega arith) (rw escaped at e) in omega arith
  | inr plain ↦ let same : s.body ≡ t = cc (rw plain at e) in rw (← same) (omega arith)
]
