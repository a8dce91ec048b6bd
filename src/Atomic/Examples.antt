-- ===== src/Atomic/Examples.antt =====
-- An int32 that wraps round twice.
use limnet.Base.{◌+◌, ◌^◌, ◌≡◌, suc, List, [], ◌∷◌, arith}
use limnet.Base.Int.{ℤ, pos, negsuc}
use limnet.Atomic.{int32, add_all, get, swap}
use limnet.Atomic.Exact.{ups, downs, add_all-exact}

abbrev there_and_back : List ℤ
there_and_back = pos (2 ^ 31) ∷ pos 7 ∷ negsuc (2 ^ 31 + 7) ∷ []

add_all-exact_example :
    (ups there_and_back ≡ downs there_and_back + 0
      → get int32 (add_all int32 there_and_back 0) ≡ pos 0)
    × (downs there_and_back ≡ ups there_and_back + suc 0
        → get int32 (add_all int32 there_and_back 0) ≡ negsuc 0)
    × ((swap int32 (pos 5) (add_all int32 there_and_back 0)).0
        ≡ get int32 (add_all int32 there_and_back 0))
    × (get int32 (swap int32 (pos 5) (add_all int32 there_and_back 0)).1 ≡ pos 5)
    × (get int32 (swap int32 (negsuc 5) (add_all int32 there_and_back 0)).1 ≡ negsuc 5)
add_all-exact_example = add_all-exact int32 there_and_back 0 5 (omega arith) (omega arith)
