-- ===== src/Jit/Strings/Backends.antt =====
-- The strings of jit.rs and of json.rs: two decoders that agree but on `\u`, `\r`, `\b` and `\f`.
use bilbo.Base.{
  ℕ, ◌≡◌, refl, ap, ◌∙◌, Bool, true, false, not, ◌&&◌, inl, inr, Bool-cases, [], ◌∷◌, ◌++◌, arith,
  leb, ◌==◌, all, Outcome, ok, panic, >>=-eq-ok, ◌||◌,
}
use bilbo.Json.Value.{Text}
use bilbo.Json.Parser.{escaped, push, string_body, from_utf8, parse_string}
use bilbo.Jit.Shims.{Memchr}
use bilbo.Jit.Unescape.{decoded, escape_sequence, round, unescape_loop, rt_unescape}
use bilbo.Jit.Scan.{build_str, string_value, ws-append}
use bilbo.Jit.Strings.Span.{span, rt_strscan-span}

-- The escapes that only the shim of jit.rs decodes.
abbrev pub is_jit_escape : ℕ → Bool
is_jit_escape c = c == b'u' || c == b'r' || c == b'b' || c == b'f'

-- No such escape in the body of a string.
unfoldable pub is_common : (hidden : Bool) → Text → Bool
is_common _ [] = true
is_common true (c ∷ b) = not (is_jit_escape c) && is_common false b
is_common false (c ∷ b) = is_common (c == 0x5c) b

push-eq-ok :
    (c : ℕ) (r : Outcome (Text × Text)) {s rest : Text}
    → push c r ≡ ok (s, rest)
    → (t : Text) × (r ≡ ok (t, rest)) × (s ≡ c ∷ t)
push-eq-ok c (ok (t, b)) h = (t, cc, cc)
push-eq-ok c panic h = cc
push-eq-ok c Outcome.fault h = cc
push-eq-ok c Outcome.out_of_fuel h = cc

escape_sequence-common :
    (c : ℕ) (rest : Text)
    → is_jit_escape c ≡ false
    → escape_sequence c rest ≡ ok (decoded (escaped c ∷ []) 1)
unfolding escape_sequence escaped
escape_sequence-common c rest h = ground arith

-- The two scans end at the same place, and both ways to build the string give the decoded bytes.
record Agrees (b s rest : Text) : Type 0 where
  slow : unescape_loop 0 (span false b).body ≡ ok s
  fast : (span false b).had_escape ≡ false → (span false b).body ≡ s
  ends : (span false b).after ≡ rest

Agrees-hop :
    (c d : ℕ) (b t rest : Text)
    → (c == 0x5c) ≡ true
    → (c == b'"') ≡ false
    → is_jit_escape d ≡ false
    → Agrees b t rest
    → Agrees (c ∷ d ∷ b) (escaped d ∷ t) rest
unfolding span unescape_loop round
Agrees-hop c d b t rest h k plain a = record {
  slow = rw (k, h) (rw h (rw (escape_sequence-common d (span false b).body plain) (rw a.slow)));
  fast = rw (k, h) (λ e. cc);
  ends = rw (k, h) a.ends;
}

round-plain : (c : ℕ) (s : Text) → (c == 0x5c) ≡ false → round c s ≡ ok (decoded (c ∷ []) 0)
unfolding round
round-plain c [] h = rw h
round-plain c (d ∷ s) h = rw h

Agrees-quote :
    (c : ℕ) (b s rest : Text)
    → (c == b'"') ≡ true
    → ◌≡◌ {A = Outcome (Text × Text)} (ok ([], b)) (ok (s, rest))
    → Agrees (c ∷ b) s rest
unfolding span unescape_loop
Agrees-quote c b s rest h e = record { slow = rw h (cc); fast = rw h (λ _. cc); ends = rw h (cc) }

Agrees-plain :
    (c : ℕ) (b t rest : Text)
    → (c == 0x5c) ≡ false
    → (c == b'"') ≡ false
    → Agrees b t rest
    → Agrees (c ∷ b) (c ∷ t) rest
unfolding span unescape_loop
Agrees-plain c b t rest h k a = record {
  slow = rw (k, h) (rw (round-plain c (span false b).body h) (rw a.slow));
  fast = rw (k, h) (λ e. ap (◌∷◌ c) (a.fast e));
  ends = rw (k, h) a.ends;
}

and-parts : (a b : Bool) → (not a && b) ≡ true → (a ≡ false) × (b ≡ true)
and-parts true b h = cc
and-parts false b h = (refl, h)

string_body-Agrees :
    (b s rest : Text)
    → string_body false b ≡ ok (s, rest)
    → is_common false (span false b).body ≡ true
    → Agrees b s rest
unfolding string_body span is_common
string_body-Agrees [] s rest h k = cc
string_body-Agrees (c ∷ []) s rest h k = elim (Bool-cases (c == b'"')) [
  | inl quote ↦ Agrees-quote c [] s rest quote (rw quote at h)
  | inr other ↦ elim (Bool-cases (c == 0x5c)) [
    | inl hop ↦ absurd (ground arith)
    | inr plain ↦ absurd (ground arith)
  ]
]
string_body-Agrees (c ∷ d ∷ b) s rest h k = elim (Bool-cases (c == b'"')) [
  | inl quote ↦ Agrees-quote c (d ∷ b) s rest quote (rw quote at h)
  | inr other ↦ elim (Bool-cases (c == 0x5c)) [
    | inl hop ↦
        let (t, e, es) = push-eq-ok (escaped d) (string_body false b) (rw (other, hop) at h) in
        let (no_jit, common) =
          and-parts (is_jit_escape d) _ (rw (hop, is_common) at (rw (other, hop) at k)) in
        rw es (Agrees-hop c d b t rest hop other no_jit (string_body-Agrees b t rest e common))
    | inr plain ↦
        let (t, e, es) = push-eq-ok c (string_body false (d ∷ b)) (rw (other, plain) at h) in
        rw es (
          Agrees-plain c (d ∷ b) t rest plain other (
            string_body-Agrees (d ∷ b) t rest e
              (rw (plain, is_common) at (rw (other, plain) at k))))
  ]
]

-- The body that `parse_string` has read, and the check of its bytes.
parse_string-body :
    (b s rest : Text) → parse_string (b'"' ∷ b) ≡ ok (s, rest) → string_body false b ≡ ok (s, rest)
unfolding parse_string from_utf8
parse_string-body b s rest h =
    let (a, e, k) = >>=-eq-ok (string_body false b) _ h in e ∙ ground arith

build_str-Agrees : (b s rest : Text) → Agrees b s rest → build_str (span false b) ≡ ok s
unfolding build_str rt_unescape
build_str-Agrees b s rest a = elim (Bool-cases (span false b).had_escape) [
  | inl escapes ↦ rw escapes a.slow
  | inr plain ↦ rw plain (ap ok (a.fast plain))
]

-- Where `parse_string` of json.rs reads a string `s` whose body has no `\u`, `\r`, `\b` or `\f`, the
-- code that jit.rs emits builds the same bytes and stops at the same place, behind any bytes up to
-- 0x20, and whatever implementation of memchr it calls.
pub string_value-parse_string :
    (crate : Memchr) (pad b s rest : Text)
    → all (λ c. leb c 0x20) pad ≡ true
    → is_common false (span false b).body ≡ true
    → parse_string (b'"' ∷ b) ≡ ok (s, rest)
    → string_value crate (pad ++ b'"' ∷ b) ≡ ok (s, rest)
unfolding string_value
string_value-parse_string crate pad b s rest blank common h =
    let agrees = string_body-Agrees b s rest (parse_string-body b s rest h) common in
    rw (ws-append pad b'"' b blank refl, rt_strscan-span crate b'"' b)
      (rw (build_str-Agrees b s rest agrees, agrees.ends))
