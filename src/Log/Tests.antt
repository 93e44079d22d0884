-- ===== src/Log/Tests.antt =====
-- Runs of the log buffer of launch/process.rs.
use rc_launcher.Base.{◌≡◌, List, [], ◌∷◌, if◌then◌else◌, ◌==◌}
use rc_launcher.Log.{LogLine, out_line, err_line, new_log, push_all}
use rc_launcher.Log.Tail.{IsTail, push_all-IsTail_new}

abbrev three_lines : List LogLine
three_lines = out_line "a" ∷ err_line "b" ∷ out_line "c" ∷ []

push_all-IsTail_new_example :
    IsTail three_lines (push_all (new_log 2) three_lines)
    × ((push_all (new_log 2) three_lines).capacity ≡ (if 2 == 0 then 2048 else 2))
push_all-IsTail_new_example = push_all-IsTail_new 2 three_lines
