-- ===== src/Atomic.antt =====
-- pkg/limutil/sync/atomic/atomic.go: `Int32`, `Int64` and `Bool`, each method of which is one atomic
-- step. A machine word is a number below its modulus.
pub mod Exact
mod Examples
use limnet.Base.{
  ℕ, ◌+◌, ◌-◌, ◌%◌, ◌^◌, suc, Bool, true, false, List, [], ◌∷◌, ltb, ◌==◌, if◌then◌else◌,
}
use limnet.Base.Int.{ℤ, pos, negsuc}

pub data Width : Type 0 where
  int32 : Width
  int64 : Width

abbrev pub half : Width → ℕ
half int32 = 2 ^ 31
half int64 = 2 ^ 63

abbrev pub modulus : Width → ℕ
modulus int32 = 2 ^ 32
modulus int64 = 2 ^ 64

-- `int32(i)` and `int64(i)`, in two's complement,
abbrev pub to_word : Width → ℤ → ℕ
to_word width (pos n) = n % modulus width
to_word width (negsuc n) = modulus width - 1 - n % modulus width

-- and the value of a word
abbrev pub of_word : Width → ℕ → ℤ
of_word width v = if ltb v (half width) then pos v else negsuc (modulus width - 1 - v)

unfoldable pub add : Width → ℤ → ℕ → ℕ
add width i v = (v + to_word width i) % modulus width

-- the previous value, and the word that is left
unfoldable pub swap : Width → ℤ → ℕ → ℤ × ℕ
swap width i v = (of_word width v, to_word width i)

unfoldable pub get : Width → ℕ → ℤ
get width v = of_word width v

-- `Add` of each in turn
unfoldable pub add_all : Width → List ℤ → ℕ → ℕ
add_all width [] v = v
add_all width (i ∷ is) v = add_all width is (add width i v)

-- `Bool`, over an int32
unfoldable pub set_bool : Bool → ℕ → ℕ
set_bool b v = (swap int32 (pos (if b then 1 else 0)) v).1

unfoldable pub get_bool : ℕ → Bool
get_bool v = v == 1
