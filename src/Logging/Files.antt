-- ===== src/Logging/Files.antt =====
-- What stands in each file, and on the standard output, after any calls.
use limnet.Base.{
  ℕ, ◌≡◌, sym, ap, ◌∙◌, Bool, true, false, ◌&&◌, ◌||◌, List, [], ◌∷◌, ◌++◌, if◌then◌else◌,
  append_assoc, append-nil, leb, arith,
}
use limnet.Logging.{
  Level, debug_level, info_level, warn_level, error_level, Sink, stdout, info_log, error_log,
  warn_log, Loggers, init, set_level, Zap, info, debug, error, warn, prefixed, lim_info, lim_debug,
  lim_error, lim_warn,
}

abbrev pub rank : Level → ℕ
rank debug_level = 0
rank info_level = 1
rank warn_level = 2
rank error_level = 3

abbrev pub same_sink : Sink → Sink → Bool
same_sink stdout stdout = true
same_sink info_log info_log = true
same_sink error_log error_log = true
same_sink warn_log warn_log = true
same_sink k other = false

abbrev pub among : Sink → List Sink → Bool
among k [] = false
among k (x ∷ xs) = same_sink k x || among k xs

abbrev pub Line : Type 0
Line = Level × List ℕ

-- zap writes a message of at least the least level to every sink of the core, once, and no other.
pub record Lines (zap : Zap) : Type 0 where
  pub lines : Sink → zap.World → List Line
  pub log_lem :
      (k : Sink) (sinks : List Sink) (least l : Level) (msg : List ℕ) (w : zap.World)
      → lines k (zap.log sinks least l msg w)
        ≡ lines k w ++ (if among k sinks && leb (rank least) (rank l) then (l, msg) ∷ [] else [])

-- A call: a message of the package's functions, or of a `LIMLog` with a prefix; SetLevel; and a change
-- of TestMode.
pub data Call : Type 0 where
  says : Level → List ℕ → Call
  lim_says : List ℕ → Level → List ℕ → Call
  sets_level : Level → Call
  sets_test_mode : Bool → Call

-- Does a message of the second level go to this sink, in this mode, where SetLevel has set the first?
abbrev pub goes_to : Sink → Bool → Level → Level → Bool
goes_to stdout false lv error_level = true
goes_to stdout false lv warn_level = true
goes_to stdout mode lv l = leb (rank lv) (rank l)
goes_to error_log false lv error_level = true
goes_to warn_log false lv warn_level = true
goes_to info_log false lv info_level = leb (rank lv) 1
goes_to info_log false lv debug_level = leb (rank lv) 0
goes_to k mode lv l = false

-- the lines that the calls add to a sink
unfoldable pub added : Sink → Bool → Level → List Call → List Line
added k mode lv [] = []
added k mode lv (says l msg ∷ cs) =
    (if goes_to k mode lv l then (l, msg) ∷ [] else []) ++ added k mode lv cs
added k mode lv (lim_says prefix l msg ∷ cs) =
    (if goes_to k mode lv l then (l, 12304 ∷ (prefix ++ (12305 ∷ msg))) ∷ [] else [])
    ++ added k mode lv cs
added k mode lv (sets_level l ∷ cs) = added k mode l cs
added k mode lv (sets_test_mode b ∷ cs) = added k b lv cs

module _ (zap : Zap) where
  open zap use {World}

  abbrev pub say : Level → Loggers → List ℕ → World → World
  say debug_level = debug zap
  say info_level = info zap
  say warn_level = warn zap
  say error_level = error zap

  abbrev pub lim_say : Level → List ℕ → Loggers → List ℕ → World → World
  lim_say debug_level = lim_debug zap
  lim_say info_level = lim_info zap
  lim_say warn_level = lim_warn zap
  lim_say error_level = lim_error zap

  abbrev pub call : Call → Loggers × World → Loggers × World
  call (says l msg) (g, w) = (g, say l g msg w)
  call (lim_says prefix l msg) (g, w) = (g, lim_say l prefix g msg w)
  call (sets_level l) (g, w) = (set_level l g, w)
  call (sets_test_mode b) (g, w) = (record g { test_mode = b }, w)

  unfoldable pub call_all : List Call → Loggers × World → Loggers × World
  call_all [] s = s
  call_all (c ∷ cs) s = call_all cs (call c s)

  -- the loggers of `init`, in a mode and with a level
  abbrev pub loggers : Bool → Level → Loggers
  loggers mode lv = record (init lv) { test_mode = mode }

  module _ (shown : Lines zap) where
    open shown use {lines}

    sinks_of : Bool → Level → List Sink
    sinks_of true l = stdout ∷ []
    sinks_of false warn_level = stdout ∷ warn_log ∷ []
    sinks_of false error_level = stdout ∷ error_log ∷ []
    sinks_of false l = stdout ∷ info_log ∷ []

    least_of : Bool → Level → Level → Level
    least_of false lv warn_level = warn_level
    least_of false lv error_level = error_level
    least_of mode lv l = lv

    goes_lem :
        (k : Sink) (mode : Bool) (lv l : Level)
        → goes_to k mode lv l
          ≡ (among k (sinks_of mode l) && leb (rank (least_of mode lv l)) (rank l))
    unfolding sinks_of least_of
    goes_lem k mode lv l = ground arith

    say-log :
        (mode : Bool) (lv l : Level) (msg : List ℕ) (w : World)
        → say l (loggers mode lv) msg w ≡ zap.log (sinks_of mode l) (least_of mode lv l) l msg w
    unfolding init info debug warn error sinks_of least_of
    say-log mode lv l msg w = ground arith

    say-lines :
        (k : Sink) (mode : Bool) (lv l : Level) (msg : List ℕ) (w : World)
        → lines k (say l (loggers mode lv) msg w)
          ≡ lines k w ++ (if goes_to k mode lv l then (l, msg) ∷ [] else [])
    say-lines k mode lv l msg w =
        ap (lines k) (say-log mode lv l msg w)
        ∙ shown.log_lem k (sinks_of mode l) (least_of mode lv l) l msg w
        ∙ ap (λ b. lines k w ++ (if b then (l, msg) ∷ [] else [])) (sym (goes_lem k mode lv l))

    lim_say-say :
        (prefix : List ℕ) (g : Loggers) (l : Level) (msg : List ℕ) (w : World)
        → lim_say l prefix g msg w ≡ say l g (prefixed zap prefix msg) w
    unfolding lim_info lim_debug lim_error lim_warn
    lim_say-say prefix g l msg w = ground arith

    calls-added :
        (k : Sink) (mode : Bool) (lv : Level) (cs : List Call) (w : World)
        → lines k (call_all cs (loggers mode lv, w)).1 ≡ lines k w ++ added k mode lv cs
    unfolding call_all added set_level init
    calls-added k mode lv [] w = sym (append-nil (lines k w))
    calls-added k mode lv (says l msg ∷ cs) w =
        calls-added k mode lv cs (say l (loggers mode lv) msg w)
        ∙ ap (λ t. t ++ added k mode lv cs) (say-lines k mode lv l msg w)
        ∙ append_assoc (lines k w) (if goes_to k mode lv l then (l, msg) ∷ [] else [])
            (added k mode lv cs)
    calls-added k mode lv (lim_says prefix l msg ∷ cs) w =
        let text = prefixed zap prefix msg in
        calls-added k mode lv cs (lim_say l prefix (loggers mode lv) msg w)
        ∙ ap (λ v. lines k v ++ added k mode lv cs) (lim_say-say prefix (loggers mode lv) l msg w)
        ∙ ap (λ t. t ++ added k mode lv cs) (say-lines k mode lv l text w)
        ∙ append_assoc (lines k w) (if goes_to k mode lv l then (l, text) ∷ [] else [])
            (added k mode lv cs)
    calls-added k mode lv (sets_level l ∷ cs) w = calls-added k mode l cs w
    calls-added k mode lv (sets_test_mode b ∷ cs) w = calls-added k b lv cs w

    -- Whatever messages are logged, and whenever SetLevel and TestMode are set between them: an error
    -- goes to error.log and a warning to warn.log, each also to the standard output, whatever the level
    -- is; other messages go to info.log and the standard output, if the level lets them pass; in test
    -- mode all go to the standard output alone, if the level lets them pass. Each goes there once, in
    -- order, a `LIMLog`'s with its prefix, and nothing else does.
    pub call_all-added :
        (k : Sink) (lv : Level) (cs : List Call) (w : World)
        → lines k (call_all cs (init lv, w)).1 ≡ lines k w ++ added k false lv cs
    unfolding init
    call_all-added k lv cs w = calls-added k false lv cs w
