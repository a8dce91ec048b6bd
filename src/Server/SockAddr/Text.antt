-- ===== src/Server/SockAddr/Text.antt =====
-- The text of an IPv4 socket address tells which one it is.
use limnet.Base.{
  ℕ, ◌≡◌, ◌≢◌, refl, sym, ap, ◌∙◌, false, some, List, [], ◌∷◌, ◌++◌, arith, All, ne→not-==,
}
use limnet.Server.Addr.{cut, colon}
use limnet.Server.Addr.Port.{
  Lacks, IsDigits, show_port, show_port-IsDigits, show_port-inj, IsDigits-Lacks, All-append,
  cut-append,
}
use limnet.Server.SockAddr.{inet4, dotted, contains, join_host_port, sock_addr_to_string}

digits-no_dot : (s : List ℕ) → IsDigits s → Lacks b'.' s
digits-no_dot [] h = h
digits-no_dot (c ∷ s) (h, t) = (omega arith, digits-no_dot s t)

-- A text is cut in one way where a character stands first.
cut-inj :
    (x : ℕ) (l l' r r' : List ℕ)
    → Lacks x l
    → Lacks x l'
    → l ++ (x ∷ r) ≡ l' ++ (x ∷ r')
    → (l ≡ l') × (r ≡ r')
cut-inj x l l' r r' h h' e =
    let one : List ℕ × List ℕ = (l, r) in
    let two : List ℕ × List ℕ = (l', r') in
    let f : some one ≡ some two =
      sym (cut-append x [] l r h) ∙ ap (cut (x ∷ [])) e ∙ cut-append x [] l' r' h' in
    let p : one ≡ two = cc in (ap (λ t. t.0) p, ap (λ t. t.1) p)

shown-inj :
    (m n : ℕ) (r r' : List ℕ)
    → show_port m ++ (b'.' ∷ r) ≡ show_port n ++ (b'.' ∷ r')
    → (m ≡ n) × (r ≡ r')
shown-inj m n r r' e =
    let (f, g) =
      cut-inj b'.' (show_port m) (show_port n) r r'
        (digits-no_dot (show_port m) (show_port-IsDigits m))
        (digits-no_dot (show_port n) (show_port-IsDigits n)) e in
    (show_port-inj m n f, g)

colon-free : (n : ℕ) → Lacks b':' (show_port n)
colon-free n = IsDigits-Lacks (show_port n) (show_port-IsDigits n)

dotted-All :
    (P : ℕ → Type 0)
    → P b'.'
    → ((n : ℕ) → All P (show_port n))
    → (a b c d : ℕ) → All P (dotted a b c d)
unfolding dotted
dotted-All P dot shown a b c d = before a _ (before b _ (before c (show_port d) (shown d)))
  where
    before : (n : ℕ) (s : List ℕ) → All P s → All P (show_port n ++ (b'.' ∷ s))
    before n s h = All-append P (show_port n) (b'.' ∷ s) (shown n) (dot, h)

dotted-Lacks : (a b c d : ℕ) → Lacks b':' (dotted a b c d)
dotted-Lacks = dotted-All (λ c. c ≢ b':') (omega arith) colon-free

contains-Lacks : (x : ℕ) (s : List ℕ) → Lacks x s → contains x s ≡ false
unfolding contains
contains-Lacks x [] h = refl
contains-Lacks x (c ∷ s) (h, t) = simp (ne→not-== x c (λ e. h (sym e)), contains-Lacks x s t)

inet4-text :
    (a b c d port : ℕ)
    → sock_addr_to_string (inet4 a b c d port) ≡ dotted a b c d ++ (colon ++ show_port port)
unfolding sock_addr_to_string join_host_port
inet4-text a b c d port = simp (contains-Lacks b':' (dotted a b c d) (dotted-Lacks a b c d))

-- Two IPv4 socket addresses with the same text are the same: each byte and the port.
pub sock_addr_to_string-inj :
    (a b c d port a' b' c' d' port' : ℕ)
    → sock_addr_to_string (inet4 a b c d port) ≡ sock_addr_to_string (inet4 a' b' c' d' port')
    → inet4 a b c d port ≡ inet4 a' b' c' d' port'
unfolding dotted
sock_addr_to_string-inj a b c d port a' b' c' d' port' e =
    let (f, g) =
      cut-inj b':' (dotted a b c d) (dotted a' b' c' d') (show_port port) (show_port port')
        (dotted-Lacks a b c d) (dotted-Lacks a' b' c' d')
        (sym (inet4-text a b c d port) ∙ e ∙ inet4-text a' b' c' d' port') in
    let (ea, f) = shown-inj a a' _ _ f in
    let (eb, f) = shown-inj b b' _ _ f in
    let (ec, f) = shown-inj c c' _ _ f in
    let ed = show_port-inj d d' f in let ep = show_port-inj port port' g in cc
