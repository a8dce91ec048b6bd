-- ===== src/Logging/Examples.antt =====
-- A log of the lines of each sink.
use limnet.Base.{◌≡◌, refl, false, List, [], ◌∷◌, ◌++◌, ◌&&◌, leb, if◌then◌else◌}
use limnet.Logging.{info_level, warn_level, error_level, Sink, stdout, warn_log, init, Zap}
use limnet.Logging.Files.{
  rank, among, Line, Lines, Call, says, lim_says, sets_level, call_all, added, call_all-added,
}

-- what each sink has
abbrev Written : Type 0
Written = Sink → List Line

abbrev plain_zap : Zap
plain_zap = record {
  World = Written;
  log = λ sinks least l msg w k.
      w k ++ (if among k sinks && leb (rank least) (rank l) then (l, msg) ∷ [] else []);
}

abbrev plain_lines : Lines plain_zap
plain_lines = record { lines = λ k w. w k; log_lem = λ k sinks least l msg w. refl }

abbrev messages : List Call
messages =
    sets_level error_level
    ∷ says info_level (1 ∷ [])
    ∷ says warn_level (2 ∷ [])
    ∷ lim_says (7 ∷ []) error_level (3 ∷ [])
    ∷ []

abbrev nothing_written : Written
nothing_written k = []

warnings_kept : added warn_log false info_level messages ≡ (warn_level, 2 ∷ []) ∷ []
unfolding added
warnings_kept = refl

call_all-added_example :
    (call_all plain_zap messages (init info_level, nothing_written)).1 stdout
    ≡ nothing_written stdout ++ added stdout false info_level messages
call_all-added_example =
    call_all-added plain_zap plain_lines stdout info_level messages nothing_written
