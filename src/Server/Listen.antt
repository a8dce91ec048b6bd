-- ===== src/Server/Listen.antt =====
-- server_tcp.go: how `TCPServer` starts to listen. A result of `true` is an error; `none` is a panic.
mod Examples
use limnet.Base.{
  ℕ, ◌<◌, ◌^◌, ◌≡◌, refl, Bool, true, false, Option, none, some, List, [], ◌∷◌, ◌++◌, map,
  if◌then◌else◌, ◌>>=◌,
}
use limnet.Base.Int.{ℤ, pos}
use limnet.Server.Addr.{parse_addr, to_lower, scheme_end, colon}
use limnet.Server.Addr.Port.{Lacks, show_port, parse_addr-shown}

pub record SockaddrInet4 : Type 0 where
  pub port : ℤ
  pub addr : List ℕ

-- the system calls of TCPServer, and `BindHandler` of the listener's loop
pub record ListenHost (World : Type 0) : Type 0 where
  pub socket : World → Option ℕ × World
  pub bind : ℕ → SockaddrInet4 → World → Bool × World
  pub listen : ℕ → ℕ → World → Bool × World
  pub set_nonblock : ℕ → World → Bool × World
  pub bind_handler : ℕ → World → Bool × World

module _ {World : Type 0} (host : ListenHost World) where
  -- `if err != nil { panic(err) }`
  abbrev pub or_panic : Bool × World → Option World
  or_panic (true, w) = none
  or_panic (false, w) = some w

  -- `initAndAddToLoopListen` after its socket(2)
  unfoldable pub after_socket : List ℕ → Option ℕ × World → Option (ℕ × World)
  after_socket addr (none, w) = none
  after_socket addr (some accept_fd, w) = do
    p ← parse_addr addr
    w ← or_panic (host.bind accept_fd (record { port = p.2; addr = 0 ∷ 0 ∷ 0 ∷ 0 ∷ [] }) w)
    w ← or_panic (host.listen accept_fd 100 w)
    w ← or_panic (host.set_nonblock accept_fd w)
    w ← or_panic (host.bind_handler accept_fd w)
    some (accept_fd, w)

  unfoldable pub init_and_add_to_loop_listen : List ℕ → World → Option (ℕ × World)
  init_and_add_to_loop_listen addr w = after_socket addr (host.socket w)

  same_port :
      (s t na nb ra rb : List ℕ) (port : ℤ) (r : Option ℕ × World)
      → parse_addr s ≡ some (na, ra, port)
      → parse_addr t ≡ some (nb, rb, port)
      → after_socket s r ≡ after_socket t r
  unfolding after_socket
  same_port s t na nb ra rb port (none, w) p q = refl
  same_port s t na nb ra rb port (some fd, w) p q = simp (p, q)

  -- Two addresses that are written out with the same port, in lower case, make the server listen in the
  -- same way, whatever networks and hosts they name.
  pub listen-any_host :
      (network_a host_a network_b host_b : List ℕ) (port : ℕ) (w : World)
      → Lacks b':' network_a
      → Lacks b':' host_a
      → map to_lower network_a ≡ network_a
      → map to_lower host_a ≡ host_a
      → Lacks b':' network_b
      → Lacks b':' host_b
      → map to_lower network_b ≡ network_b
      → map to_lower host_b ≡ host_b
      → port < 2 ^ 63
      → init_and_add_to_loop_listen
          (network_a ++ (scheme_end ++ (host_a ++ (colon ++ show_port port))))
          w
        ≡ init_and_add_to_loop_listen
            (network_b ++ (scheme_end ++ (host_b ++ (colon ++ show_port port))))
            w
  unfolding init_and_add_to_loop_listen
  listen-any_host na ha nb hb port w a b c d e f g h small =
      same_port (na ++ (scheme_end ++ (ha ++ (colon ++ show_port port))))
        (nb ++ (scheme_end ++ (hb ++ (colon ++ show_port port)))) na nb
        (ha ++ (colon ++ show_port port)) (hb ++ (colon ++ show_port port)) (pos port)
        (host.socket w) (parse_addr-shown na ha port a b c d small)
        (parse_addr-shown nb hb port e f g h small)
