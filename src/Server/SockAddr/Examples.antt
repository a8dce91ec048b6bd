-- ===== src/Server/SockAddr/Examples.antt =====
-- Loopback addresses of both families.
use limnet.Base.{◌≡◌, refl, [], ◌∷◌, ◌++◌, replicate}
use limnet.Server.Addr.Port.{show_port, digits}
use limnet.Server.SockAddr.{
  Sockaddr, inet4, inet6, sock_addr_to_string, ip6_text, join_host_port, contains, dotted,
}

-- 10.0.0.1:80
inet4_shown :
    sock_addr_to_string (inet4 10 0 0 1 80)
    ≡ b'1' ∷ b'0' ∷ b'.' ∷ b'0' ∷ b'.' ∷ b'0' ∷ b'.' ∷ b'1' ∷ b':' ∷ b'8' ∷ b'0' ∷ []
unfolding sock_addr_to_string join_host_port dotted contains show_port digits
inet4_shown = refl

-- [::1]:80
inet6_shown :
    sock_addr_to_string (inet6 (replicate 15 0 ++ (1 ∷ [])) 80)
    ≡ b'[' ∷ b':' ∷ b':' ∷ b'1' ∷ b']' ∷ b':' ∷ b'8' ∷ b'0' ∷ []
unfolding sock_addr_to_string join_host_port ip6_text contains show_port digits
    limnet.Server.SockAddr.fields limnet.Server.SockAddr.zero_run limnet.Server.SockAddr.longest_run
    limnet.Server.SockAddr.join_hex limnet.Server.SockAddr.shortened
inet6_shown = refl
