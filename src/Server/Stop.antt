-- ===== src/Server/Stop.antt =====
-- server_tcp.go: the job by which `TCPServer` stops; server.go: `Stop`. A result of `true` is an error,
-- and `none` is a panic.
mod Examples
use limnet.Base.{
  ℕ, ◌≡◌, ◌≢◌, refl, sym, ap, ◌∙◌, Bool, true, false, Option, none, some, List, [], ◌∷◌, ◌++◌,
  if◌then◌else◌, ◌>>=◌, append_assoc, append-nil, Bool-cases, inl, inr,
}
use limnet.RingBuffer.Export.{ByteBuffers}
use limnet.Options.{Options}
use limnet.Server.Http.{
  HttpServer, WsServer, HttpHost, new_ws_server, http_server, ws_start, ws_stop,
}

-- `delete_fd` is DeleteFdInLoop, `close_stopped` is `close(s.Stopped)`, and `wait_stopped` waits for it;
-- `trigger_stop` is the Trigger in `Stop` of TCPServer.
pub record StopHost (World : Type 0) : Type 0 where
  pub http : HttpHost World
  pub delete_fd : ℕ → World → World
  pub close_fd : ℕ → World → Bool × World
  pub close_stopped : World → World
  pub wait_stopped : World → World
  pub stop_timing_wheel : World → World
  pub trigger_stop : World → World
  pub stop_listener_loop : World → Bool × World
  pub stop_loop : ℕ → World → Bool × World

module _ {World : Type 0} (host : StopHost World) where
  -- the job that `Stop` of `TCPServer` triggers
  unfoldable pub stop_job : ℕ → World → Bool × World
  stop_job accept_fd w =
      let r = host.close_fd accept_fd (host.delete_fd accept_fd w) in
      if r.0 then (true, r.1) else (false, host.close_stopped r.1)

  -- `Stop` of the connections' loops, whose errors are only logged
  unfoldable pub stop_loops : List ℕ → World → World
  stop_loops [] w = w
  stop_loops (l ∷ ls) w = stop_loops ls (host.stop_loop l w).1

  abbrev pub after_listener : List ℕ → Bool × World → Bool × World
  after_listener loops (true, w) = (true, w)
  after_listener loops (false, w) = (false, host.wait_stopped (stop_loops loops w))

  abbrev pub after_ws : List ℕ → Bool × World → Bool × World
  after_ws loops (true, w) = (true, w)
  after_ws loops (false, w) = after_listener loops (host.stop_listener_loop w)

  -- `Stop` of `LIMNet`
  unfoldable pub stop : WsServer → List ℕ → World → Option (Bool × World)
  stop ws loops w = do
    r ← ws_stop host.http ws (host.trigger_stop (host.stop_timing_wheel w))
    some (after_ws loops r)

  -- The loops of connections that have been stopped, in order; nothing else adds to them.
  pub record StopLog : Type 0 where
    pub stopped : World → List ℕ
    pub shutdown_lem : (s : HttpServer) (w : World) → stopped (host.http.shutdown s w).1 ≡ stopped w
    pub wait_lem : (w : World) → stopped (host.wait_stopped w) ≡ stopped w
    pub timing_wheel_lem : (w : World) → stopped (host.stop_timing_wheel w) ≡ stopped w
    pub trigger_lem : (w : World) → stopped (host.trigger_stop w) ≡ stopped w
    pub listener_lem : (w : World) → stopped (host.stop_listener_loop w).1 ≡ stopped w
    pub stop_loop_lem : (l : ℕ) (w : World) → stopped (host.stop_loop l w).1 ≡ stopped w ++ (l ∷ [])

  module _ (log : StopLog) where
    open log use {stopped}

    stop_loops-stopped : (ls : List ℕ) (w : World) → stopped (stop_loops ls w) ≡ stopped w ++ ls
    unfolding stop_loops
    stop_loops-stopped [] w = sym (append-nil (stopped w))
    stop_loops-stopped (l ∷ ls) w =
        stop_loops-stopped ls (host.stop_loop l w).1
        ∙ ap (λ t. t ++ ls) (log.stop_loop_lem l w)
        ∙ append_assoc (stopped w) (l ∷ []) ls

    -- An error stops none of the loops, and no error all of them.
    abbrev Stops : List ℕ → World → Bool × World → Type 0
    Stops loops w r = stopped r.1 ≡ stopped w ++ (if r.0 then [] else loops)

    after_listener-Stops :
        (loops : List ℕ) (w : World) (r : Bool × World)
        → stopped r.1 ≡ stopped w
        → Stops loops w (after_listener loops r)
    after_listener-Stops loops w (true, v) e = e ∙ sym (append-nil (stopped w))
    after_listener-Stops loops w (false, v) e =
        log.wait_lem (stop_loops loops v) ∙ stop_loops-stopped loops v ∙ ap (λ t. t ++ loops) e

    after_ws-Stops :
        (loops : List ℕ) (w : World) (r : Bool × World)
        → stopped r.1 ≡ stopped w
        → Stops loops w (after_ws loops r)
    after_ws-Stops loops w (true, v) e = e ∙ sym (append-nil (stopped w))
    after_ws-Stops loops w (false, v) e =
        after_listener-Stops loops w (host.stop_listener_loop v) (log.listener_lem v ∙ e)

    -- `Stop` of a server that has not been run panics. On one that runs it does not: where it returns an
    -- error it has stopped no loop of connections, and otherwise each of them once, in order, whatever
    -- errors these give.
    pub stop-Stops :
        {lib : ByteBuffers} (opts : Options lib) (loops : List ℕ) (w : World)
        → (stop new_ws_server loops w ≡ none)
          × (r : Bool × World) × (stop (ws_start opts new_ws_server) loops w ≡ some r)
          × (stopped r.1 ≡ stopped w ++ (if r.0 then [] else loops))
    unfolding stop ws_stop ws_start new_ws_server
    stop-Stops opts loops w =
        let v = host.trigger_stop (host.stop_timing_wheel w) in
        let r = host.http.shutdown (http_server opts) v in
        (
          refl,
          after_ws loops r,
          refl,
          after_ws-Stops loops w r (
              log.shutdown_lem (http_server opts) v
              ∙ log.trigger_lem (host.stop_timing_wheel w)
              ∙ log.timing_wheel_lem w),
        )
