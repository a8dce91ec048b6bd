-- ===== src/RingBuffer/Ceil.antt =====
-- `CeilToPowerOfTwo` and `fillBits` of pkg/ringbuffer/ringbuffer.go, on a 64-bit platform.
pub mod Fill
pub mod Least
use Prim.Native.Nat.{bit_or, bit_and}
use limnet.Base.{ℕ, ◌+◌, ◌-◌, ◌/◌, ◌^◌, Option, none, some, not, ◌&&◌, ◌==◌, ltb, leb}
use limnet.Base.{if◌then◌else◌}
use limnet.Base.Int.{ℤ, pos, negsuc}

-- `bitsize` is 64, so the constant is `1 << 62`.
abbrev pub max_int_head_bit : ℕ
max_int_head_bit = 2 ^ 62

-- `n |= n >> s`
pub or_shift : ℕ → ℕ → ℕ
or_shift s n = bit_or n (n / 2 ^ s)

pub fill_bits : ℕ → ℕ
fill_bits n = or_shift 32 (or_shift 16 (or_shift 8 (or_shift 4 (or_shift 2 (or_shift 1 n)))))

-- `none` is the panic. Of a negative int the first test's second half fails, and the next holds.
unfoldable pub ceil_to_power_of_two : ℤ → Option ℕ
unfolding fill_bits or_shift
ceil_to_power_of_two (negsuc k) = some 2
ceil_to_power_of_two (pos n) =
    if not (bit_and n max_int_head_bit == 0) && ltb max_int_head_bit n
    then none
    else if leb n 2
    then some 2
    else some (fill_bits (n - 1) + 1)
