-- ===== src/Server/Listen/Examples.antt =====
-- A system that listens: its world is where.
use limnet.Base.{ℕ, ◌≡◌, refl, false, some, List, [], ◌∷◌, ◌++◌, arith}
use limnet.Base.Int.{pos}
use limnet.Server.Addr.{parse_addr, scheme_end, colon}
use limnet.Server.Addr.Port.{Lacks, show_port, parse_addr-shown}
use limnet.Server.Listen.{SockaddrInet4, ListenHost}

abbrev listening : ListenHost (List SockaddrInet4)
listening = record {
  socket = λ w. (some 3, w);
  bind = λ fd a w. (false, a ∷ w);
  listen = λ fd n w. (false, w);
  set_nonblock = λ fd w. (false, w);
  bind_handler = λ fd w. (false, w);
}

abbrev tcp : List ℕ
tcp = b't' ∷ b'c' ∷ b'p' ∷ []

abbrev loopback : List ℕ
loopback = b'1' ∷ b'.' ∷ b'1' ∷ []

abbrev private_host : List ℕ
private_host = b'1' ∷ b'0' ∷ []

tcp-Lacks : Lacks b':' tcp
tcp-Lacks = (omega arith, (omega arith, (omega arith, tt)))

loopback-Lacks : Lacks b':' loopback
loopback-Lacks = (omega arith, (omega arith, (omega arith, tt)))

private_host-Lacks : Lacks b':' private_host
private_host-Lacks = (omega arith, (omega arith, tt))

parse_addr-shown_example :
    parse_addr (tcp ++ (scheme_end ++ (loopback ++ (colon ++ show_port 6666))))
    ≡ some (tcp, loopback ++ (colon ++ show_port 6666), pos 6666)
parse_addr-shown_example =
    parse_addr-shown tcp loopback 6666 tcp-Lacks loopback-Lacks refl refl (omega arith)

-- An address without a scheme, as in the README: its port is not read.
without_scheme :
    parse_addr (loopback ++ (colon ++ (b'8' ∷ [])))
    ≡ some (tcp, loopback ++ (colon ++ (b'8' ∷ [])), pos 0)
unfolding parse_addr limnet.Server.Addr.with_scheme limnet.Server.Addr.cut limnet.Server.Addr.after
without_scheme = refl
