-- ===== src/Server/Addr.antt =====
-- server.go: `parseAddr`, on the code points of an ASCII address, with strings.ToLower, strings.Split
-- and strconv.ParseInt as far as it uses them.
pub mod Port
use limnet.Base.{
  ℕ, ◌+◌, ◌-◌, ◌*◌, ◌^◌, Bool, true, false, not, ◌&&◌, ◌||◌, Option, none, some, List, [], ◌∷◌,
  ◌++◌, map, ltb, leb, ◌==◌, if◌then◌else◌, ◌>>=◌, zero, suc,
}
use limnet.Base.Int.{ℤ, pos, negsuc}

abbrev pub to_lower : ℕ → ℕ
to_lower c = if leb b'A' c && leb c b'Z' then c + 32 else c

-- Does a text begin with this one, and what follows then?
unfoldable pub after : List ℕ → List ℕ → Option (List ℕ)
after [] s = some s
after (x ∷ sep) [] = none
after (x ∷ sep) (c ∷ s) = let rest = after sep s in if x == c then rest else none

-- The first part grows by a character that does not begin a separator.
abbrev pub cut_at : Option (List ℕ) → ℕ → Option (List ℕ × List ℕ) → Option (List ℕ × List ℕ)
cut_at (some rest) c later = some ([], rest)
cut_at none c none = none
cut_at none c (some (l, r)) = some (c ∷ l, r)

-- What stands before and after a separator that is not empty, where it stands first
unfoldable pub cut : List ℕ → List ℕ → Option (List ℕ × List ℕ)
cut sep [] = none
cut sep (c ∷ s) = cut_at (after sep (c ∷ s)) c (cut sep s)

abbrev pub before_or : Option (List ℕ × List ℕ) → List ℕ → List ℕ
before_or none s = s
before_or (some (l, r)) s = l

-- The first part of `strings.Split`
unfoldable pub head_part : List ℕ → List ℕ → List ℕ
head_part sep s = before_or (cut sep s) s

abbrev pub is_digit : ℕ → Bool
is_digit c = leb b'0' c && leb c b'9'

-- strconv.ParseUint of digits: a character that is none is a syntax error, `none`, and where the value
-- leaves 64 bits the greatest one is returned.
unfoldable pub parse_digits : ℕ → List ℕ → Option ℕ
parse_digits n [] = some n
parse_digits n (c ∷ s) =
    let m = n * 10 + (c - b'0') in
    let rest = parse_digits m s in
    if not (is_digit c) then none else if leb (2 ^ 64) m then some (2 ^ 64 - 1) else rest

-- and with no digits an error
unfoldable pub parse_uint : List ℕ → Option ℕ
parse_uint [] = none
parse_uint (c ∷ s) = parse_digits 0 (c ∷ s)

-- strconv.ParseInt, where an error of syntax gives 0 and one of range the nearest int64
unfoldable pub int_of : Bool → Option ℕ → ℤ
int_of neg none = pos 0
int_of false (some n) = pos (if leb (2 ^ 63) n then 2 ^ 63 - 1 else n)
int_of true (some n) =
    if n == 0 then pos 0 else negsuc (if leb (2 ^ 63) n then 2 ^ 63 - 1 else n - 1)

unfoldable pub parse_int : List ℕ → ℤ
parse_int [] = int_of false (parse_uint [])
parse_int (c ∷ s) =
    if c == b'+'
    then int_of false (parse_uint s)
    else if c == b'-'
    then int_of true (parse_uint s)
    else int_of false (parse_uint (c ∷ s))

abbrev pub scheme_end : List ℕ
scheme_end = b':' ∷ b'/' ∷ b'/' ∷ []

abbrev pub colon : List ℕ
colon = b':' ∷ []

-- the network, the address and the port: `none` is the panic of `pair2[1]`
unfoldable pub with_scheme : List ℕ → Option (List ℕ × List ℕ) → Option (List ℕ × List ℕ × ℤ)
with_scheme address none = some (b't' ∷ b'c' ∷ b'p' ∷ [], address, pos 0)
with_scheme address (some (network, rest)) =
    let host = head_part scheme_end rest in
    do p ← cut colon host; some (network, host, parse_int (head_part colon p.1))

unfoldable pub parse_addr : List ℕ → Option (List ℕ × List ℕ × ℤ)
parse_addr addr = let address = map to_lower addr in with_scheme address (cut scheme_end address)
