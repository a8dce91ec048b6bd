-- ===== src/Options/Examples.antt =====
-- Two addresses, nil and an idle time, over the defaults.
use limnet.Base.{◌≡◌, refl, some, List, [], ◌∷◌, map}
use limnet.Base.Int.{pos}
use limnet.RingBuffer.Examples.{plain}
use limnet.Server.Addr.{parse_addr}
use limnet.Options.{Options, new_option, default_addr, apply_all}
use limnet.Options.Last.{
  Setting, addr, conn_idle_time, nil_option, option_of, IsLast, apply_all-IsLast,
}

abbrev settings : List (Setting plain)
settings = addr (b'a' ∷ []) ∷ nil_option ∷ conn_idle_time (pos 5) ∷ addr (b'b' ∷ []) ∷ []

apply_all-IsLast_example :
    (out : Options plain) × (apply_all (map option_of settings) new_option ≡ some out)
    × IsLast settings new_option out
apply_all-IsLast_example = apply_all-IsLast settings new_option

-- the host and the port of the default address
default_port :
    parse_addr default_addr
    ≡ some (
      b't' ∷ b'c' ∷ b'p' ∷ [],
      b'1' ∷ b'2' ∷ b'7' ∷ b'.' ∷ b'0' ∷ b'.' ∷ b'0' ∷ b'.' ∷ b'1' ∷ b':' ∷ b'6' ∷ b'6' ∷ b'6'
          ∷ b'6' ∷ [],
      pos 6666,
    )
unfolding parse_addr limnet.Server.Addr.with_scheme limnet.Server.Addr.cut limnet.Server.Addr.after
    limnet.Server.Addr.head_part limnet.Server.Addr.parse_int limnet.Server.Addr.parse_uint
    limnet.Server.Addr.parse_digits limnet.Server.Addr.int_of
default_port = refl
