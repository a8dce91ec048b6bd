-- ===== src/Conn/Framing.antt =====
-- What an `unPacket` of event_handler.go is meant to do: a protocol says what the first packet of
-- the bytes received is and how many bytes it takes, and `unPacket` takes it off the connection.
use limnet.Base.{
  ℕ, ◌≤◌, ◌<◌, ◌≡◌, refl, sym, ap, ◌∙◌, true, false, Option, none, some, List, [], ◌∷◌, ◌++◌,
  length, drop, drop-append, arith, subst,
}
use limnet.RingBuffer.Defs.{RingBuffer}
use limnet.RingBuffer.Export.{ByteBuffers}
use limnet.Conn.Inbound.{Inbound}
use limnet.Conn.Inbound.Laws.{Holds, stream}
use limnet.Conn.Events.{UnPacket}

-- The first packet of some bytes, and the number of bytes that it takes up, or `none` while it is
-- not complete.
abbrev pub Protocol : Type 0
Protocol = List ℕ → Option (List ℕ × ℕ)

-- A packet takes up some of the bytes, and more bytes behind it do not change it.
pub record IsProtocol (parse : Protocol) : Type 0 where
  pub consumes : (xs p : List ℕ) (n : ℕ) → parse xs ≡ some (p, n) → (0 < n) × (n ≤ length xs)
  pub stable : (xs ys p : List ℕ) (n : ℕ) → parse xs ≡ some (p, n) → parse (xs ++ ys) ≡ some (p, n)

module _ (parse : Protocol) where
  -- The bytes are those of some packets, and then the rest.
  pub data Parses : List ℕ → List (List ℕ) → List ℕ → Type 0 where
    nothing : {xs rest : List ℕ} → xs ≡ rest → Parses xs [] rest
    packet :
        {xs : List ℕ} {ps : List (List ℕ)} {rest : List ℕ} (p : List ℕ) (n : ℕ)
        → parse xs ≡ some (p, n)
        → Parses (drop n xs) ps rest
        → Parses xs (p ∷ ps) rest

  -- `unPacket` implements the protocol: it does nothing on a closed connection, it leaves an
  -- incomplete packet where it is, and takes a complete one off.
  pub record Implements (lib : ByteBuffers) (un_packet : UnPacket lib) : Type 0 where
    pub closed : (c : Inbound lib) → c.connected ≡ false → un_packet c ≡ some (none, c)
    pub waits :
        (c : Inbound lib) (i : RingBuffer)
        → c.connected ≡ true
        → Holds c i
        → parse (stream i c) ≡ none
        → (out : Inbound lib) × (j : RingBuffer) × (un_packet c ≡ some (none, out))
          × (out.connected ≡ true)
          × Holds out j
          × (stream j out ≡ stream i c)
          × (j.size ≤ i.size)
    pub takes :
        (c : Inbound lib) (i : RingBuffer) (p : List ℕ) (n : ℕ)
        → c.connected ≡ true
        → Holds c i
        → parse (stream i c) ≡ some (p, n)
        → (out : Inbound lib) × (j : RingBuffer) × (un_packet c ≡ some (some p, out))
          × (out.connected ≡ true)
          × Holds out j
          × (stream j out ≡ drop n (stream i c))
          × (j.size ≤ i.size)

module _ {parse : Protocol} (law : IsProtocol parse) where
  -- Packets of the bytes are packets of more bytes too,
  pub Parses-append :
      (xs ys : List ℕ) (ps : List (List ℕ)) (rest : List ℕ)
      → Parses parse xs ps rest
      → Parses parse (xs ++ ys) ps (rest ++ ys)
  Parses-append xs ys _ rest (nothing e) = nothing (ap (λ t. t ++ ys) e)
  Parses-append xs ys _ rest (packet {ps} p n e more) =
      let (some_bytes, fits) = law.consumes xs p n e in
      packet p n (law.stable xs ys p n e) (
        subst (λ t. Parses parse t ps (rest ++ ys))
          (sym (drop-append n xs ys ∙ ap (λ t. drop n xs ++ drop t ys) {y = 0} (omega arith)))
          (Parses-append (drop n xs) ys ps rest more))

  -- and what is parsed of the rest comes behind.
  pub Parses-trans :
      (xs : List ℕ) (ps : List (List ℕ)) (mid : List ℕ) (qs : List (List ℕ)) (rest : List ℕ)
      → Parses parse xs ps mid
      → Parses parse mid qs rest
      → Parses parse xs (ps ++ qs) rest
  Parses-trans xs _ mid qs rest (nothing e) more = subst (λ t. Parses parse t qs rest) (sym e) more
  Parses-trans xs _ mid qs rest (packet {ps} p n e first) more =
      packet p n e (Parses-trans (drop n xs) ps mid qs rest first more)

  -- Any packets of the bytes are the first of all their packets.
  pub Parses-prefix :
      (xs : List ℕ) (ps : List (List ℕ)) (rest : List ℕ) (ms : List (List ℕ)) (left : List ℕ)
      → Parses parse xs ps rest
      → Parses parse xs ms left
      → parse left ≡ none
      → (qs : List (List ℕ)) × (ms ≡ ps ++ qs) × Parses parse rest qs left
  Parses-prefix xs _ rest ms left (nothing e) all a =
      (ms, refl, subst (λ t. Parses parse t ms left) e all)
  Parses-prefix xs _ rest _ left (packet p n e more) (nothing f) a =
      absurd (let g = ap parse f in cc)
  Parses-prefix xs _ rest _ left (packet {ps} p n e first) (packet {ps = ms} q m f second) a =
      let same : (p ≡ q) × (n ≡ m) = (cc, cc) in
      let (qs, split, tail) =
        Parses-prefix (drop n xs) ps rest ms left first
          (subst (λ t. Parses parse (drop t xs) ms left) (sym same.1) second) a in
      (qs, cc, tail)
