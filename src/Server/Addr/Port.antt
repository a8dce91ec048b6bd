-- ===== src/Server/Addr/Port.antt =====
-- server.go: `parseAddr` reads back the port of an address that is written out.
use native.Mathlib.Decide.{dec_lt}
use mathlib.Core.List.{map-append}
use limnet.Base.{
  ℕ, ◌+◌, ◌-◌, ◌*◌, ◌/◌, ◌%◌, ◌^◌, ◌≤◌, ◌<◌, ◌≡◌, ◌≢◌, refl, sym, ap, ap₂, ◌∙◌, none, some, List,
  [], ◌∷◌, ◌++◌, map, append-nil, arith, suc, zero, ltb, if◌then◌else◌, All, lt→ltb, le→not-ltb,
  eq→==, ne→not-==,
}
use limnet.Base.Int.{pos}
use limnet.Server.Addr.{
  to_lower, after, cut, head_part, parse_digits, parse_uint, int_of, parse_int, scheme_end, colon,
  with_scheme, parse_addr,
}

-- a number in decimal digits, with fuel
unfoldable pub digits : ℕ → ℕ → List ℕ
digits zero n = []
digits (suc fuel) n =
    let rest = digits fuel (n / 10) in
    if ltb n 10 then (b'0' + n) ∷ [] else rest ++ ((b'0' + n % 10) ∷ [])

unfoldable pub show_port : ℕ → List ℕ
show_port n = digits (suc n) n

abbrev pub Lacks : ℕ → List ℕ → Type 0
Lacks x s = All (λ c. c ≢ x) s

abbrev pub IsDigits : List ℕ → Type 0
IsDigits s = All (λ c. (b'0' ≤ c) × (c ≤ b'9')) s

value : ℕ → List ℕ → ℕ
value n [] = n
value n (c ∷ s) = value (n * 10 + (c - b'0')) s

value-append : (s : List ℕ) (n d : ℕ) → value n (s ++ (d ∷ [])) ≡ value n s * 10 + (d - b'0')
unfolding value
value-append [] n d = refl
value-append (c ∷ s) n d = value-append s (n * 10 + (c - b'0')) d

le-value : (s : List ℕ) (n : ℕ) → n ≤ value n s
unfolding value
le-value [] n = omega arith
le-value (c ∷ s) n = let h = le-value s (n * 10 + (c - b'0')) in omega arith

parse_digits-value :
    (s : List ℕ) (n : ℕ) → IsDigits s → value n s < 2 ^ 64 → parse_digits n s ≡ some (value n s)
unfolding parse_digits value
parse_digits-value [] n h small = refl
parse_digits-value (c ∷ s) n (h, t) small =
    let ih = parse_digits-value s (n * 10 + (c - b'0')) t small in
    let le = le-value s (n * 10 + (c - b'0')) in ground (arith, ih, le)

pub All-append : (P : ℕ → Type 0) (xs ys : List ℕ) → All P xs → All P ys → All P (xs ++ ys)
All-append P [] ys h k = k
All-append P (x ∷ xs) ys (h, t) k = (h, All-append P xs ys t k)

digits-IsDigits : (fuel n : ℕ) → IsDigits (digits fuel n)
unfolding digits
digits-IsDigits zero n = tt
digits-IsDigits (suc fuel) n = elim (dec_lt n 10) [
  | yes q ↦ rw (lt→ltb n 10 q) ((omega arith, omega arith), tt)
  | no q ↦ rw (le→not-ltb n 10 (omega arith)) (
      All-append (λ c. (b'0' ≤ c) × (c ≤ b'9')) (digits fuel (n / 10)) ((b'0' + n % 10) ∷ [])
        (digits-IsDigits fuel (n / 10)) ((omega arith, omega arith), tt))
]

value-digits : (fuel n : ℕ) → n < fuel → value 0 (digits fuel n) ≡ n
unfolding digits value
value-digits zero n h = absurd (omega arith)
value-digits (suc fuel) n h = elim (dec_lt n 10) [
  | yes q ↦ rw (lt→ltb n 10 q) (omega arith)
  | no q ↦ rw (le→not-ltb n 10 (omega arith)) (
      let ih = value-digits fuel (n / 10) (omega arith) in
      value-append (digits fuel (n / 10)) 0 (b'0' + n % 10) ∙ omega (arith, ih))
]

pub show_port-IsDigits : (n : ℕ) → IsDigits (show_port n)
unfolding show_port
show_port-IsDigits n = digits-IsDigits (suc n) n

pub show_port-inj : (m n : ℕ) → show_port m ≡ show_port n → m ≡ n
unfolding show_port
show_port-inj m n e =
    sym (value-digits (suc m) m (omega arith))
    ∙ ap (value 0) e
    ∙ value-digits (suc n) n (omega arith)

pub IsDigits-Lacks : (s : List ℕ) → IsDigits s → Lacks b':' s
IsDigits-Lacks [] h = h
IsDigits-Lacks (c ∷ s) (h, t) = (omega arith, IsDigits-Lacks s t)

map-to_lower-digits : (s : List ℕ) → IsDigits s → map to_lower s ≡ s
map-to_lower-digits [] h = refl
map-to_lower-digits (c ∷ s) (h, t) = ap₂ (λ x xs. x ∷ xs) (ground arith) (map-to_lower-digits s t)

after-append : (sep r : List ℕ) → after sep (sep ++ r) ≡ some r
unfolding after
after-append [] r = refl
after-append (x ∷ sep) r = rw (eq→== x x refl) (after-append sep r)

-- A separator is found where its first character stands first.
pub cut-append :
    (x : ℕ) (sep l r : List ℕ) → Lacks x l → cut (x ∷ sep) (l ++ ((x ∷ sep) ++ r)) ≡ some (l, r)
unfolding cut after
cut-append x sep [] r h = rw (eq→== x x refl, after-append sep r) refl
cut-append x sep (c ∷ l) r (h, t) = simp (ne→not-== x c (λ e. h (sym e)), cut-append x sep l r t)

cut-Lacks :
    (x : ℕ) (sep l r : List ℕ) → Lacks x l → cut (x ∷ sep) r ≡ none → cut (x ∷ sep) (l ++ r) ≡ none
unfolding cut after
cut-Lacks x sep [] r h e = e
cut-Lacks x sep (c ∷ l) r (h, t) e = simp (ne→not-== x c (λ e. h (sym e)), cut-Lacks x sep l r t e)

cut-none : (x : ℕ) (sep s : List ℕ) → Lacks x s → cut (x ∷ sep) s ≡ none
unfolding cut
cut-none x sep s h = ap (cut (x ∷ sep)) (sym (append-nil s)) ∙ cut-Lacks x sep s [] h refl

-- A colon with digits behind it is no end of a scheme.
cut-digits : (s : List ℕ) → IsDigits s → cut scheme_end (colon ++ s) ≡ none
unfolding cut after
cut-digits [] h = refl
cut-digits (d ∷ s) (h, t) = simp (
  ne→not-== b'/' d (λ e. omega arith),
  cut-none b':' (b'/' ∷ b'/' ∷ []) (d ∷ s) (IsDigits-Lacks (d ∷ s) (h, t)),
)

parse_int-digits :
    (s : List ℕ) → s ≢ [] → IsDigits s → value 0 s < 2 ^ 63 → parse_int s ≡ pos (value 0 s)
unfolding parse_int parse_uint int_of
parse_int-digits [] ne h small = absurd (ne refl)
parse_int-digits (c ∷ s) ne (h, t) small =
    let e = parse_digits-value (c ∷ s) 0 (h, t) (omega arith) in
    simp (ne→not-== c b'+' (λ q. omega arith), ne→not-== c b'-' (λ q. omega arith), e)
      (ground (arith, small))

snoc-ne : (xs : List ℕ) (x : ℕ) → xs ++ (x ∷ []) ≢ []
snoc-ne [] x e = cc
snoc-ne (y ∷ xs) x e = cc

show_port-ne : (n : ℕ) → show_port n ≢ []
unfolding show_port digits
show_port-ne n e = elim (dec_lt n 10) [
  | yes q ↦ let z = simp (lt→ltb n 10 q) at e in cc
  | no q ↦
      let z = simp (le→not-ltb n 10 (omega arith)) at e in
      snoc-ne (digits n (n / 10)) (b'0' + n % 10) z
]

lower_host :
    (host : List ℕ) (port : ℕ)
    → map to_lower host ≡ host
    → map to_lower (host ++ (colon ++ show_port port)) ≡ host ++ (colon ++ show_port port)
unfolding show_port
lower_host host port low =
    map-append to_lower host (colon ++ show_port port)
    ∙ ap₂ ◌++◌ low (
        ap (λ t. colon ++ t)
          (map-to_lower-digits (show_port port) (digits-IsDigits (suc port) port)))

-- An address that is written out as a network, `://`, a host, a colon and a port below 2^63, the
-- first two in lower case and without a colon, is read back: the network, the rest, and the port.
pub parse_addr-shown :
    (network host : List ℕ) (port : ℕ)
    → Lacks b':' network
    → Lacks b':' host
    → map to_lower network ≡ network
    → map to_lower host ≡ host
    → port < 2 ^ 63
    → parse_addr (network ++ (scheme_end ++ (host ++ (colon ++ show_port port))))
      ≡ some (network, host ++ (colon ++ show_port port), pos port)
unfolding parse_addr with_scheme head_part show_port
parse_addr-shown network host port nl hl nlow hlow small =
    simp (lower, cut-append b':' (b'/' ∷ b'/' ∷ []) network rest nl)
      (simp (whole, cut-append b':' [] host (show_port port) hl)
        (simp (cut-none b':' [] (show_port port) (IsDigits-Lacks (show_port port) shown), number)))
  where
    shown : IsDigits (show_port port)
    shown = digits-IsDigits (suc port) port

    rest : List ℕ
    rest = host ++ (colon ++ show_port port)

    lower : map to_lower (network ++ (scheme_end ++ rest)) ≡ network ++ (scheme_end ++ rest)
    lower =
        map-append to_lower network (scheme_end ++ rest)
        ∙ ap₂ ◌++◌ nlow (ap (λ t. scheme_end ++ t) (lower_host host port hlow))

    whole : cut scheme_end rest ≡ none
    whole =
        cut-Lacks b':' (b'/' ∷ b'/' ∷ []) host (colon ++ show_port port) hl
          (cut-digits (show_port port) shown)

    number : parse_int (show_port port) ≡ pos port
    number =
        let e = value-digits (suc port) port (omega arith) in
        parse_int-digits (show_port port) (show_port-ne port) shown (omega (arith, e)) ∙ ap pos e
