-- ===== src/Server/Http.antt =====
-- server_ws.go: `NewWSServer`, `Start` with its goroutine, and `Stop`. The HTTP server of net/http is
-- an argument; its requests are in `ws_server` of Server. A result of `true` is an error, and `none` is
-- a panic.
use limnet.Base.{Bool, ℕ, Option, none, some, List, if◌then◌else◌, ◌>>=◌}
use limnet.RingBuffer.Export.{ByteBuffers}
use limnet.Options.{Options}

pub record HttpServer : Type 0 where
  pub addr : List ℕ

-- `srv`, nil until `Start`
pub record WsServer : Type 0 where
  pub srv : Option HttpServer

-- the error of ListenAndServe: nil, ErrServerClosed, or another
pub data Served : Type 0 where
  served : Served
  server_closed : Served
  serve_failed : Served

pub record HttpHost (World : Type 0) : Type 0 where
  pub listen_and_serve : HttpServer → World → Served × World
  pub listen_and_serve_tls : HttpServer → List ℕ → List ℕ → World → Served × World
  pub shutdown : HttpServer → World → Bool × World

unfoldable pub new_ws_server : WsServer
new_ws_server = record { srv = none }

abbrev pub after_served : {World : Type 0} → Served × World → Option World
after_served (served, w) = some w
after_served (server_closed, w) = some w
after_served (serve_failed, w) = none

module _ {lib : ByteBuffers} where
  -- the server that `Start` makes
  abbrev pub http_server : Options lib → HttpServer
  http_server opts = record { addr = opts.ws_addr }

  unfoldable pub ws_start : Options lib → WsServer → WsServer
  ws_start opts s = record s { srv = some (http_server opts) }

  module _ {World : Type 0} (host : HttpHost World) where
    -- the goroutine of `Start`
    unfoldable pub serve_http : Options lib → World → Option World
    serve_http opts w =
        let srv = http_server opts in
        after_served (
          if opts.ssl_on
          then host.listen_and_serve_tls srv opts.ssl_certificate opts.ssl_certificate_key w
          else host.listen_and_serve srv w)

-- `Stop`, where Shutdown of a nil server panics
unfoldable pub ws_stop :
    {World : Type 0} → HttpHost World → WsServer → World → Option (Bool × World)
ws_stop host s w = do srv ← s.srv; some (host.shutdown srv w)
