-- ===== src/Options/Last.antt =====
-- Of several options that set the same field the last one counts.
use limnet.Base.{ℕ, ◌≡◌, refl, ap, ◌∙◌, Bool, Option, none, some, List, [], ◌∷◌, map}
use limnet.Base.Int.{ℤ}
use limnet.RingBuffer.Export.{ByteBuffers}
use limnet.Conn.Events.{UnPacket}
use limnet.Options.{
  Options, OptFunc, with_addr, with_ws_addr, with_un_packet, with_conn_idle_time, with_ssl_on,
  with_ssl_certificate, with_ssl_certificate_key, apply_all,
}

-- The options of options.go, and nil
pub data Setting (lib : ByteBuffers) : Type 0 where
  addr : List ℕ → Setting lib
  ws_addr : List ℕ → Setting lib
  un_packet : UnPacket lib → Setting lib
  conn_idle_time : ℤ → Setting lib
  ssl_on : Bool → Setting lib
  ssl_certificate : List ℕ → Setting lib
  ssl_certificate_key : List ℕ → Setting lib
  nil_option : Setting lib

abbrev or_else : {A : Type 0} → Option A → A → A
or_else none d = d
or_else (some a) d = a

-- The value of the last setting that gives one, or else the default
pub last : {A B : Type 0} → (B → Option A) → List B → A → A
last f [] d = d
last f (s ∷ ss) d = last f ss (or_else (f s) d)

module _ {lib : ByteBuffers} where
  abbrev pub option_of : Setting lib → Option (OptFunc lib)
  option_of (addr x) = some (with_addr x)
  option_of (ws_addr x) = some (with_ws_addr x)
  option_of (un_packet x) = some (with_un_packet x)
  option_of (conn_idle_time x) = some (with_conn_idle_time x)
  option_of (ssl_on x) = some (with_ssl_on x)
  option_of (ssl_certificate x) = some (with_ssl_certificate x)
  option_of (ssl_certificate_key x) = some (with_ssl_certificate_key x)
  option_of nil_option = none

  abbrev pub addr_of : Setting lib → Option (List ℕ)
  addr_of (addr x) = some x
  addr_of s = none

  abbrev pub ws_addr_of : Setting lib → Option (List ℕ)
  ws_addr_of (ws_addr x) = some x
  ws_addr_of s = none

  abbrev pub un_packet_of : Setting lib → Option (UnPacket lib)
  un_packet_of (un_packet x) = some x
  un_packet_of s = none

  abbrev pub conn_idle_time_of : Setting lib → Option (ℤ)
  conn_idle_time_of (conn_idle_time x) = some x
  conn_idle_time_of s = none

  abbrev pub ssl_on_of : Setting lib → Option (Bool)
  ssl_on_of (ssl_on x) = some x
  ssl_on_of s = none

  abbrev pub ssl_certificate_of : Setting lib → Option (List ℕ)
  ssl_certificate_of (ssl_certificate x) = some x
  ssl_certificate_of s = none

  abbrev pub ssl_certificate_key_of : Setting lib → Option (List ℕ)
  ssl_certificate_key_of (ssl_certificate_key x) = some x
  ssl_certificate_key_of s = none

  -- Each field is the last value that the settings give it, or the one before; the three that no
  -- setting is for are as before.
  pub record IsLast (ss : List (Setting lib)) (before after : Options lib) : Type 0 where
    pub addr_lem : after.addr ≡ last addr_of ss before.addr
    pub ws_addr_lem : after.ws_addr ≡ last ws_addr_of ss before.ws_addr
    pub un_packet_lem : after.un_packet ≡ last un_packet_of ss before.un_packet
    pub conn_idle_time_lem : after.conn_idle_time ≡ last conn_idle_time_of ss before.conn_idle_time
    pub ssl_on_lem : after.ssl_on ≡ last ssl_on_of ss before.ssl_on
    pub ssl_certificate_lem :
        after.ssl_certificate ≡ last ssl_certificate_of ss before.ssl_certificate
    pub ssl_certificate_key_lem :
        after.ssl_certificate_key ≡ last ssl_certificate_key_of ss before.ssl_certificate_key
    pub num_kept : after.conn_event_loop_num ≡ before.conn_event_loop_num
    pub tick_kept : after.timing_wheel_tick ≡ before.timing_wheel_tick
    pub size_kept : after.timing_wheel_size ≡ before.timing_wheel_size

  IsLast-trans :
      (s : Setting lib) (ss : List (Setting lib)) (opts mid out : Options lib)
      → IsLast (s ∷ []) opts mid
      → IsLast ss mid out
      → IsLast (s ∷ ss) opts out
  unfolding last
  IsLast-trans s ss opts mid out one v = record {
    addr_lem = v.addr_lem ∙ ap (last addr_of ss) one.addr_lem;
    ws_addr_lem = v.ws_addr_lem ∙ ap (last ws_addr_of ss) one.ws_addr_lem;
    un_packet_lem = v.un_packet_lem ∙ ap (last un_packet_of ss) one.un_packet_lem;
    conn_idle_time_lem =
        v.conn_idle_time_lem ∙ ap (last conn_idle_time_of ss) one.conn_idle_time_lem;
    ssl_on_lem = v.ssl_on_lem ∙ ap (last ssl_on_of ss) one.ssl_on_lem;
    ssl_certificate_lem =
        v.ssl_certificate_lem ∙ ap (last ssl_certificate_of ss) one.ssl_certificate_lem;
    ssl_certificate_key_lem =
        v.ssl_certificate_key_lem ∙ ap (last ssl_certificate_key_of ss) one.ssl_certificate_key_lem;
    num_kept = v.num_kept ∙ one.num_kept;
    tick_kept = v.tick_kept ∙ one.tick_kept;
    size_kept = v.size_kept ∙ one.size_kept;
  }

  -- an option alone, with the options that follow
  option_of-IsLast :
      (s : Setting lib) (opts : Options lib)
      → (mid : Options lib) × IsLast (s ∷ []) opts mid
        × ((rest : List (Option (OptFunc lib)))
            → apply_all (option_of s ∷ rest) opts ≡ apply_all rest mid)
  unfolding last apply_all with_addr with_ws_addr with_un_packet with_conn_idle_time with_ssl_on
      with_ssl_certificate with_ssl_certificate_key
  option_of-IsLast (addr x) opts = (
    record opts { addr = x },
    record {
      addr_lem = refl;
      ws_addr_lem = refl;
      un_packet_lem = refl;
      conn_idle_time_lem = refl;
      ssl_on_lem = refl;
      ssl_certificate_lem = refl;
      ssl_certificate_key_lem = refl;
      num_kept = refl;
      tick_kept = refl;
      size_kept = refl;
    },
    λ rest. refl,
  )
  option_of-IsLast (ws_addr x) opts = (
    record opts { ws_addr = x },
    record {
      addr_lem = refl;
      ws_addr_lem = refl;
      un_packet_lem = refl;
      conn_idle_time_lem = refl;
      ssl_on_lem = refl;
      ssl_certificate_lem = refl;
      ssl_certificate_key_lem = refl;
      num_kept = refl;
      tick_kept = refl;
      size_kept = refl;
    },
    λ rest. refl,
  )
  option_of-IsLast (un_packet x) opts = (
    record opts { un_packet = x },
    record {
      addr_lem = refl;
      ws_addr_lem = refl;
      un_packet_lem = refl;
      conn_idle_time_lem = refl;
      ssl_on_lem = refl;
      ssl_certificate_lem = refl;
      ssl_certificate_key_lem = refl;
      num_kept = refl;
      tick_kept = refl;
      size_kept = refl;
    },
    λ rest. refl,
  )
  option_of-IsLast (conn_idle_time x) opts = (
    record opts { conn_idle_time = x },
    record {
      addr_lem = refl;
      ws_addr_lem = refl;
      un_packet_lem = refl;
      conn_idle_time_lem = refl;
      ssl_on_lem = refl;
      ssl_certificate_lem = refl;
      ssl_certificate_key_lem = refl;
      num_kept = refl;
      tick_kept = refl;
      size_kept = refl;
    },
    λ rest. refl,
  )
  option_of-IsLast (ssl_on x) opts = (
    record opts { ssl_on = x },
    record {
      addr_lem = refl;
      ws_addr_lem = refl;
      un_packet_lem = refl;
      conn_idle_time_lem = refl;
      ssl_on_lem = refl;
      ssl_certificate_lem = refl;
      ssl_certificate_key_lem = refl;
      num_kept = refl;
      tick_kept = refl;
      size_kept = refl;
    },
    λ rest. refl,
  )
  option_of-IsLast (ssl_certificate x) opts = (
    record opts { ssl_certificate = x },
    record {
      addr_lem = refl;
      ws_addr_lem = refl;
      un_packet_lem = refl;
      conn_idle_time_lem = refl;
      ssl_on_lem = refl;
      ssl_certificate_lem = refl;
      ssl_certificate_key_lem = refl;
      num_kept = refl;
      tick_kept = refl;
      size_kept = refl;
    },
    λ rest. refl,
  )
  option_of-IsLast (ssl_certificate_key x) opts = (
    record opts { ssl_certificate_key = x },
    record {
      addr_lem = refl;
      ws_addr_lem = refl;
      un_packet_lem = refl;
      conn_idle_time_lem = refl;
      ssl_on_lem = refl;
      ssl_certificate_lem = refl;
      ssl_certificate_key_lem = refl;
      num_kept = refl;
      tick_kept = refl;
      size_kept = refl;
    },
    λ rest. refl,
  )
  option_of-IsLast nil_option opts = (
    opts,
    record {
      addr_lem = refl;
      ws_addr_lem = refl;
      un_packet_lem = refl;
      conn_idle_time_lem = refl;
      ssl_on_lem = refl;
      ssl_certificate_lem = refl;
      ssl_certificate_key_lem = refl;
      num_kept = refl;
      tick_kept = refl;
      size_kept = refl;
    },
    λ rest. refl,
  )

  -- The options of options.go, in any number and order and with nil among them, are applied without a
  -- panic: each field then is what the last option for it says, or else what it was, and the number of
  -- loops and the two of the timing wheel are what they were.
  pub apply_all-IsLast :
      (ss : List (Setting lib)) (opts : Options lib)
      → (out : Options lib) × (apply_all (map option_of ss) opts ≡ some out) × IsLast ss opts out
  unfolding apply_all last
  apply_all-IsLast [] opts = (
    opts,
    refl,
    record {
      addr_lem = refl;
      ws_addr_lem = refl;
      un_packet_lem = refl;
      conn_idle_time_lem = refl;
      ssl_on_lem = refl;
      ssl_certificate_lem = refl;
      ssl_certificate_key_lem = refl;
      num_kept = refl;
      tick_kept = refl;
      size_kept = refl;
    },
  )
  apply_all-IsLast (s ∷ ss) opts =
      let (mid, one, applied) = option_of-IsLast s opts in
      let (out, ok, v) = apply_all-IsLast ss mid in
      (out, applied (map option_of ss) ∙ ok, IsLast-trans s ss opts mid out one v)
