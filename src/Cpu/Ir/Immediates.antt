-- ===== src/Cpu/Ir/Immediates.antt =====
-- The five immediates against the fields of the instruction manual: each is one signed number of
-- its format's width, put together from the pieces of the instruction word.
use sustemu.Base.{ℕ, ◌+◌, ◌*◌, ◌%◌, ◌^◌, ◌<◌, ◌≡◌, sym, ◌∙◌, ap, arith, bit_or}
use sustemu.Base.Bits.{bit_or-disjoint}
use sustemu.Word.{bits, sext, shl64}
use sustemu.Cpu.Ir.Decode.{imm_s, imm_b, imm_j}

-- The pieces of a store's, a branch's and a jump's offset
abbrev pub s_field : ℕ → ℕ
s_field i = bits i 31 25 * 2 ^ 5 + bits i 11 7

abbrev pub b_field : ℕ → ℕ
b_field i = bits i 31 31 * 2 ^ 12 + bits i 7 7 * 2 ^ 11 + bits i 30 25 * 2 ^ 5 + bits i 11 8 * 2

abbrev pub j_field : ℕ → ℕ
j_field i = bits i 31 31 * 2 ^ 20 + bits i 19 12 * 2 ^ 12 + bits i 20 20 * 2 ^ 11 + bits i 30 21 * 2

-- A store's offset is its two pieces as one signed number of 12 bits.
pub imm_s-s_field : (i : ℕ) → imm_s i ≡ sext (s_field i) 12
unfolding imm_s
imm_s-s_field i =
    ground (arith, bit_or-disjoint 5 (sext (bits i 31 25) 7 % 2 ^ 59) (bits i 11 7) (omega arith))

-- Four fields, each below the one before it
glue :
    (j k l q x y z : ℕ)
    → (a b c : ℕ) → a ≡ q * 2 ^ j
    → x < 2 ^ j
    → a + x ≡ b * 2 ^ k
    → y < 2 ^ k
    → b * 2 ^ k + y ≡ c * 2 ^ l
    → z < 2 ^ l
    → bit_or (bit_or (bit_or a x) y) z ≡ a + x + y + z
glue j k l q x y z a b c ea hx eb hy ec hz =
    ap (λ t. bit_or (bit_or t y) z) first ∙ ap (λ t. bit_or t z) second ∙ third
  where
    first : bit_or a x ≡ a + x
    first = ap (λ t. bit_or t x) ea ∙ bit_or-disjoint j q x hx ∙ ap (λ t. t + x) (sym ea)

    second : bit_or (a + x) y ≡ a + x + y
    second = ap (λ t. bit_or t y) eb ∙ bit_or-disjoint k b y hy ∙ ap (λ t. t + y) (sym eb)

    third : bit_or (a + x + y) z ≡ a + x + y + z
    third =
        ap (λ t. bit_or t z) (ap (λ t. t + y) eb ∙ ec)
        ∙ bit_or-disjoint l c z hz
        ∙ ap (λ t. t + z) (sym (ap (λ t. t + y) eb ∙ ec))

-- A branch's offset is its four pieces as one signed number of 13 bits.
pub imm_b-b_field : (i : ℕ) → imm_b i ≡ sext (b_field i) 13
unfolding imm_b
imm_b-b_field i =
    glue 12 11 5 q (bits i 7 7 * 2 ^ 11) (bits i 30 25 * 2 ^ 5) (bits i 11 8 * 2 ^ 1)
      (shl64 (sext (bits i 31 31) 1) 12) (q * 2 + bits i 7 7)
      ((q * 2 + bits i 7 7) * 2 ^ 6 + bits i 30 25) (omega arith) (omega arith) (omega arith)
      (omega arith) (omega arith) (omega arith)
    ∙ ground arith
  where
    q : ℕ
    q = sext (bits i 31 31) 1 % 2 ^ 52

-- A jump's offset is its four pieces as one signed number of 21 bits.
pub imm_j-j_field : (i : ℕ) → imm_j i ≡ sext (j_field i) 21
unfolding imm_j
imm_j-j_field i =
    glue 20 12 11 q (bits i 19 12 * 2 ^ 12) (bits i 20 20 * 2 ^ 11) (bits i 30 21 * 2 ^ 1)
      (shl64 (sext (bits i 31 31) 1) 20) (q * 2 ^ 8 + bits i 19 12)
      ((q * 2 ^ 8 + bits i 19 12) * 2 + bits i 20 20) (omega arith) (omega arith) (omega arith)
      (omega arith) (omega arith) (omega arith)
    ∙ ground arith
  where
    q : ℕ
    q = sext (bits i 31 31) 1 % 2 ^ 44

-- The offsets of a store, a branch and a jump are their pieces as one signed number of 12, 13 and 21
-- bits.
pub immediates-fields :
    (i : ℕ)
    → (imm_s i ≡ sext (s_field i) 12)
      × (imm_b i ≡ sext (b_field i) 13)
      × (imm_j i ≡ sext (j_field i) 21)
immediates-fields i = (imm_s-s_field i, imm_b-b_field i, imm_j-j_field i)
