-- ===== src/Options.antt =====
-- options.go, and how `New` of server.go applies the options. A text is its code points, a duration its
-- nanoseconds, and an error of an option is `none`.
pub mod Last
mod Examples
use limnet.Base.{ℕ, ◌*◌, Bool, true, false, Option, none, some, List, [], ◌∷◌, map, ◌>>=◌}
use limnet.Base.Int.{ℤ, pos}
use limnet.RingBuffer.Export.{ByteBuffers}
use limnet.Conn.Events.{UnPacket, default_un_packet}

pub record Options (lib : ByteBuffers) : Type 0 where
  pub addr : List ℕ
  pub ws_addr : List ℕ
  pub ssl_on : Bool
  pub ssl_certificate : List ℕ
  pub ssl_certificate_key : List ℕ
  pub conn_event_loop_num : ℤ
  pub timing_wheel_tick : ℤ
  pub timing_wheel_size : ℤ
  pub conn_idle_time : ℤ
  pub un_packet : UnPacket lib

-- tcp://127.0.0.1:6666
abbrev pub default_addr : List ℕ
default_addr =
    b't' ∷ b'c' ∷ b'p' ∷ b':' ∷ b'/' ∷ b'/' ∷ b'1' ∷ b'2' ∷ b'7' ∷ b'.' ∷ b'0' ∷ b'.' ∷ b'0' ∷ b'.'
    ∷ b'1' ∷ b':' ∷ b'6' ∷ b'6' ∷ b'6' ∷ b'6' ∷ []

-- 0.0.0.0:8030
abbrev pub default_ws_addr : List ℕ
default_ws_addr =
    b'0' ∷ b'.' ∷ b'0' ∷ b'.' ∷ b'0' ∷ b'.' ∷ b'0' ∷ b':' ∷ b'8' ∷ b'0' ∷ b'3' ∷ b'0' ∷ []

-- a type `Option` of options.go
abbrev pub OptFunc : ByteBuffers → Type 0
OptFunc lib = Options lib → Option (Options lib)

module _ {lib : ByteBuffers} where
  unfoldable pub new_option : Options lib
  new_option = record {
    addr = default_addr;
    ws_addr = default_ws_addr;
    ssl_on = false;
    ssl_certificate = [];
    ssl_certificate_key = [];
    conn_event_loop_num = pos 0;
    timing_wheel_tick = pos (10 * 1000000);
    timing_wheel_size = pos 1000;
    conn_idle_time = pos (70 * 1000000000);
    un_packet = default_un_packet lib;
  }

  unfoldable pub with_addr : List ℕ → OptFunc lib
  with_addr addr opts = some (record opts { addr = addr })

  unfoldable pub with_ws_addr : List ℕ → OptFunc lib
  with_ws_addr wsaddr opts = some (record opts { ws_addr = wsaddr })

  unfoldable pub with_un_packet : UnPacket lib → OptFunc lib
  with_un_packet un_packet opts = some (record opts { un_packet = un_packet })

  unfoldable pub with_conn_idle_time : ℤ → OptFunc lib
  with_conn_idle_time conn_idle_time opts = some (record opts { conn_idle_time = conn_idle_time })

  unfoldable pub with_ssl_on : Bool → OptFunc lib
  with_ssl_on ssl_on opts = some (record opts { ssl_on = ssl_on })

  unfoldable pub with_ssl_certificate : List ℕ → OptFunc lib
  with_ssl_certificate certificate opts = some (record opts { ssl_certificate = certificate })

  unfoldable pub with_ssl_certificate_key : List ℕ → OptFunc lib
  with_ssl_certificate_key key opts = some (record opts { ssl_certificate_key = key })

  -- The loop of `New`: an option that is nil is left out, and one with an error panics.
  unfoldable pub apply_all : List (Option (OptFunc lib)) → OptFunc lib
  apply_all [] opts = some opts
  apply_all (none ∷ rest) opts = apply_all rest opts
  apply_all (some opt ∷ rest) opts = do opts ← opt opts; apply_all rest opts
