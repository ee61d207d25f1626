-- ===== src/Fat/Codes.antt =====
-- One code of a name of src/fat16.c in UTF-8: its bytes are read as the code.
use rvos.Common.{
  ℕ, suc, ◌+◌, ◌*◌, ◌/◌, ◌%◌, ◌^◌, ◌<◌, ◌≡◌, refl, ap, ◌∙◌, inl, inr, true, false, some, ◌∷◌, ◌++◌,
  ltb, ltb→lt, ◌==◌, arith, Bool-cases,
}
use rvos.Text.{Str}
use rvos.Fat.Unicode.{continue16, lead, read_code, bytes_of}

continue_step :
    (extra c k : ℕ) (s : Str)
    → k < 64
    → continue16 (suc extra) c ((0x80 + k) ∷ s) ≡ continue16 extra (c * 64 + k) s
unfolding continue16
continue_step extra c k s below =
    let top : ((0x80 + k) / 64 == 2) ≡ true = ground arith in
    let low : (0x80 + k) % 64 ≡ k = omega arith in rw (top, low) refl

lead1 : (c : ℕ) → c < 0x80 → lead c ≡ some (c, 0)
unfolding lead
lead1 c h = let t : ltb c 0x80 ≡ true = ground arith in rw t refl

lead2 : (k : ℕ) → k < 32 → lead (0xc0 + k) ≡ some (k, 1)
unfolding lead
lead2 k h =
    let a : ltb (0xc0 + k) 0x80 ≡ false = ground arith in
    let b : ((0xc0 + k) / 32 == 6) ≡ true = ground arith in
    let low : (0xc0 + k) % 32 ≡ k = omega arith in rw (a, b, low) refl

lead3 : (k : ℕ) → k < 16 → lead (0xe0 + k) ≡ some (k, 2)
unfolding lead
lead3 k h =
    let a : ltb (0xe0 + k) 0x80 ≡ false = ground arith in
    let b : ((0xe0 + k) / 32 == 6) ≡ false = ground arith in
    let c : ((0xe0 + k) / 16 == 14) ≡ true = ground arith in
    let low : (0xe0 + k) % 16 ≡ k = omega arith in rw (a, b, c, low) refl

lead4 : (k : ℕ) → k < 8 → lead (0xf0 + k) ≡ some (k, 3)
unfolding lead
lead4 k h =
    let a : ltb (0xf0 + k) 0x80 ≡ false = ground arith in
    let b : ((0xf0 + k) / 32 == 6) ≡ false = ground arith in
    let c : ((0xf0 + k) / 16 == 14) ≡ false = ground arith in
    let d : ((0xf0 + k) / 8 == 30) ≡ true = ground arith in
    let low : (0xf0 + k) % 8 ≡ k = omega arith in rw (a, b, c, d, low) refl

read1 : (c : ℕ) (s : Str) → c < 0x80 → read_code (c ∷ s) ≡ some (c, s)
unfolding read_code continue16
read1 c s h = rw (read_code, lead1 c h) refl

read2 :
    (a b : ℕ) (s : Str)
    → a < 32
    → b < 64
    → read_code ((0xc0 + a) ∷ (0x80 + b) ∷ s) ≡ some (a * 64 + b, s)
unfolding read_code continue16
read2 a b s ha hb = rw (read_code, lead2 a ha) (continue_step 0 a b s hb)

read3 :
    (a b c : ℕ) (s : Str)
    → a < 16
    → b < 64
    → c < 64
    → read_code ((0xe0 + a) ∷ (0x80 + b) ∷ (0x80 + c) ∷ s) ≡ some ((a * 64 + b) * 64 + c, s)
unfolding read_code continue16
read3 a b c s ha hb hc =
    rw (read_code, lead3 a ha)
      (continue_step 1 a b ((0x80 + c) ∷ s) hb ∙ continue_step 0 (a * 64 + b) c s hc)

read4 :
    (a b c d : ℕ) (s : Str)
    → a < 8
    → b < 64
    → c < 64
    → d < 64
    → read_code ((0xf0 + a) ∷ (0x80 + b) ∷ (0x80 + c) ∷ (0x80 + d) ∷ s)
      ≡ some (((a * 64 + b) * 64 + c) * 64 + d, s)
unfolding read_code continue16
read4 a b c d s ha hb hc hd =
    rw (read_code, lead4 a ha)
      (continue_step 2 a b ((0x80 + c) ∷ (0x80 + d) ∷ s) hb
        ∙ continue_step 1 (a * 64 + b) c ((0x80 + d) ∷ s) hc
        ∙ continue_step 0 ((a * 64 + b) * 64 + c) d s hd)

-- The bytes of a code are read as the code, whatever follows.
pub read_code-bytes_of :
    (c : ℕ) (s : Str) → c < 0x11_0000 → read_code (bytes_of c ++ s) ≡ some (c, s)
unfolding bytes_of
read_code-bytes_of c s bound = elim (Bool-cases (ltb c 0x80)) [
  | inl a ↦ rw (bytes_of, a) (read1 c s (ltb→lt c 0x80 a))
  | inr na ↦ elim (Bool-cases (ltb c 0x800)) [
    | inl b ↦
        let below = ltb→lt c 0x800 b in
        rw (bytes_of, na, b)
          (read2 (c / 64) (c % 64) s (omega arith) (omega arith)
            ∙ ap (λ n. some (n, s)) (omega arith))
    | inr nb ↦ elim (Bool-cases (ltb c 0x1_0000)) [
      | inl d ↦
          let below = ltb→lt c 0x1_0000 d in
          rw (bytes_of, na, nb, d)
            (read3 (c / 4096) (c / 64 % 64) (c % 64) s (omega arith) (omega arith) (omega arith)
              ∙ ap (λ n. some (n, s)) (omega arith))
      | inr nd ↦
          rw (bytes_of, na, nb, nd)
            (read4 (c / 2 ^ 18) (c / 4096 % 64) (c / 64 % 64) (c % 64) s (omega arith) (omega arith)
                (omega arith) (omega arith)
              ∙ ap (λ n. some (n, s)) (omega arith))
    ]
  ]
]
