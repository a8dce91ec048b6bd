-- ===== src/Server/SockAddr.antt =====
-- server.go: `sockAddrToString`, with net.IP.String, net.JoinHostPort and strconv.Itoa.
pub mod Text
mod Examples
use limnet.Base.{
  ℕ, ◌+◌, ◌*◌, ◌/◌, ◌%◌, Bool, true, false, ◌&&◌, List, [], ◌∷◌, ◌++◌, ltb, leb, ◌==◌,
  if◌then◌else◌, zero, suc, take, drop, get_or, ◌-◌, ◌||◌,
}
use limnet.Server.Addr.Port.{show_port}

-- The bytes of the address, and a port that is not negative. A socket address of any other type has
-- that type's name, as `%T` writes it.
pub data Sockaddr : Type 0 where
  inet4 : ℕ → ℕ → ℕ → ℕ → ℕ → Sockaddr
  inet6 : List ℕ → ℕ → Sockaddr
  other : List ℕ → Sockaddr

-- net.IP.String of four bytes
unfoldable pub dotted : ℕ → ℕ → ℕ → ℕ → List ℕ
dotted a b c d =
    show_port a ++ (b'.' ∷ (show_port b ++ (b'.' ∷ (show_port c ++ (b'.' ∷ show_port d)))))

abbrev pub hex_digit : ℕ → ℕ
hex_digit n = if ltb n 10 then b'0' + n else b'a' + (n - 10)

-- a field of 16 bits, without zeros in front
abbrev pub hex : ℕ → List ℕ
hex n =
    let d = hex_digit (n % 16) ∷ [] in
    let c = hex_digit (n / 16 % 16) ∷ d in
    let b = hex_digit (n / 256 % 16) ∷ c in
    let a = hex_digit (n / 4096) ∷ b in
    if ltb n 16 then d else if ltb n 256 then c else if ltb n 4096 then b else a

-- the fields of 16 bits
unfoldable pub fields : List ℕ → List ℕ
fields [] = []
fields (hi ∷ []) = []
fields (hi ∷ lo ∷ rest) = (hi * 256 + lo) ∷ fields rest

unfoldable pub zero_run : List ℕ → ℕ
zero_run [] = 0
zero_run (x ∷ xs) = let n = zero_run xs in if x == 0 then suc n else 0

-- where the longest run of zeros begins, the first of several, and its length
unfoldable pub longest_run : List ℕ → ℕ × ℕ
longest_run [] = (0, 0)
longest_run (x ∷ xs) =
    let r = longest_run xs in
    let n = zero_run (x ∷ xs) in if leb r.1 n then (0, n) else (suc r.0, r.1)

unfoldable pub join_hex : List ℕ → List ℕ
join_hex [] = []
join_hex (x ∷ []) = hex x
join_hex (x ∷ y ∷ rest) = hex x ++ (b':' ∷ join_hex (y ∷ rest))

-- A run of at least two zeros is shortened.
unfoldable pub shortened : List ℕ → List ℕ
shortened fs =
    let r = longest_run fs in
    if ltb 1 r.1
    then join_hex (take r.0 fs) ++ (b':' ∷ b':' ∷ join_hex (drop (r.0 + r.1) fs))
    else join_hex fs

-- net.IP.String of sixteen bytes: one that maps an address of four bytes has the text of that.
unfoldable pub ip6_text : List ℕ → List ℕ
ip6_text bytes =
    let fs = fields bytes in
    if zero_run fs == 5 && get_or fs 5 0 == 65535
    then dotted (get_or bytes 12 0) (get_or bytes 13 0) (get_or bytes 14 0) (get_or bytes 15 0)
    else shortened fs

unfoldable pub contains : ℕ → List ℕ → Bool
contains x [] = false
contains x (c ∷ s) = (x == c) || contains x s

unfoldable pub join_host_port : List ℕ → List ℕ → List ℕ
join_host_port host port =
    if contains b':' host then b'[' ∷ (host ++ (b']' ∷ b':' ∷ port)) else host ++ (b':' ∷ port)

-- (unknown - T)
unfoldable pub unknown : List ℕ → List ℕ
unknown name =
    b'('
    ∷ b'u'
    ∷ b'n'
    ∷ b'k'
    ∷ b'n'
    ∷ b'o'
    ∷ b'w'
    ∷ b'n'
    ∷ b' '
    ∷ b'-'
    ∷ b' '
    ∷ (name ++ (b')' ∷ []))

unfoldable pub sock_addr_to_string : Sockaddr → List ℕ
sock_addr_to_string (inet4 a b c d port) = join_host_port (dotted a b c d) (show_port port)
sock_addr_to_string (inet6 bytes port) = join_host_port (ip6_text bytes) (show_port port)
sock_addr_to_string (other name) = unknown name
