-- ===== src/Word.antt =====
-- The machine words of the simulator (include/general/common.h, include/general/utils.h) and C's
-- operations on them: `word_t` is a number below 2 ^ 64, and every operation wraps as C's does.
use mathlib.Core.Bool.{xor, ◌||◌, ◌&&◌}
use sustemu.Base.Int.{ℤ, pos, negsuc, pos_part, neg_part, sub_ℕ}
use sustemu.Base.{
  Option, none, some, true, false, ℕ, ◌+◌, ◌-◌, ◌*◌, ◌/◌, ◌%◌, ◌^◌, Bool, ltb, if◌then◌else◌, ◌==◌,
}

abbrev pub word_mod : ℕ
word_mod = 2 ^ 64

-- `BITS(x, hi, lo)`
abbrev pub bits : ℕ → ℕ → ℕ → ℕ
bits x hi lo = x / 2 ^ lo % 2 ^ (hi - lo + 1)

abbrev pub add64 : ℕ → ℕ → ℕ
add64 a b = (a + b) % word_mod

abbrev pub sub64 : ℕ → ℕ → ℕ
sub64 a b = (a + word_mod - b % word_mod) % word_mod

abbrev pub mul64 : ℕ → ℕ → ℕ
mul64 a b = a * b % word_mod

-- `~a`
abbrev pub not64 : ℕ → ℕ
not64 a = word_mod - 1 - a % word_mod

-- `a << k` and `a >> k`, for k below 64
abbrev pub shl64 : ℕ → ℕ → ℕ
shl64 a k = a * 2 ^ k % word_mod

abbrev pub shr64 : ℕ → ℕ → ℕ
shr64 a k = a / 2 ^ k

-- `SEXT(x, len)`: the low `w + 1` bits of x as a signed field of 64 bits
abbrev pub sext : ℕ → ℕ → ℕ
sext x len =
    if ltb (x % 2 ^ len) (2 ^ (len - 1)) then x % 2 ^ len else x % 2 ^ len + (word_mod - 2 ^ len)

-- `UEXT(x, len)`
abbrev pub uext : ℕ → ℕ → ℕ
uext x len = x % 2 ^ len

-- `(int64_t)a >> k`: the vacated bits are copies of the sign bit
unfoldable pub sar64 : ℕ → ℕ → ℕ
sar64 a k = if ltb a (2 ^ 63) then a / 2 ^ k else word_mod - 1 - (word_mod - 1 - a) / 2 ^ k

-- `(int32_t)a` and `(int64_t)a`, as the integer that the low `len` bits stand for
abbrev pub to_signed : ℕ → ℕ → ℤ
to_signed len a =
    if ltb (a % 2 ^ len) (2 ^ (len - 1))
    then pos (a % 2 ^ len)
    else negsuc (2 ^ len - 1 - a % 2 ^ len)

-- The 64-bit pattern of an integer.
abbrev pub of_signed : ℤ → ℕ
of_signed (pos n) = n % word_mod
of_signed (negsuc n) = word_mod - 1 - n % word_mod

-- `(int64_t)a < (int64_t)b`
unfoldable pub slt64 : ℕ → ℕ → Bool
slt64 a b =
    let x = to_signed 64 a in
    let y = to_signed 64 b in ltb (pos_part x + neg_part y) (pos_part y + neg_part x)

abbrev pub magnitude : ℤ → ℕ
magnitude z = pos_part z + neg_part z

abbrev pub is_neg : ℤ → Bool
is_neg (pos n) = false
is_neg (negsuc n) = true

-- `/` of C on signed numbers: it truncates toward zero.
pub tdiv : ℤ → ℤ → ℤ
tdiv a b =
    let q = magnitude a / magnitude b in if xor (is_neg a) (is_neg b) then sub_ℕ 0 q else pos q

-- `%` of C on signed numbers: the sign is the dividend's.
pub trem : ℤ → ℤ → ℤ
trem a b = let r = magnitude a % magnitude b in if is_neg a then sub_ℕ 0 r else pos r

-- A signed division on `len` bits traps where C leaves it undefined: at divisor 0, and at the
-- least number divided by -1.
abbrev pub sdiv_faults : ℕ → ℕ → ℕ → Bool
sdiv_faults len a b = b % 2 ^ len == 0 || a % 2 ^ len == 2 ^ (len - 1) && b % 2 ^ len == 2 ^ len - 1

pub sdiv : ℕ → ℕ → ℕ → Option ℕ
sdiv len a b =
    if sdiv_faults len a b
    then none
    else some (of_signed (tdiv (to_signed len a) (to_signed len b)))

pub srem : ℕ → ℕ → ℕ → Option ℕ
srem len a b =
    if sdiv_faults len a b
    then none
    else some (of_signed (trem (to_signed len a) (to_signed len b)))

pub udiv : ℕ → ℕ → Option ℕ
udiv a b = if b == 0 then none else some (a / b)

pub urem : ℕ → ℕ → Option ℕ
urem a b = if b == 0 then none else some (a % b)
