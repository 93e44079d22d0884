-- ===== src/Launch/Noted.antt =====
-- Arguments of launch/command.rs with the notes that their making leaves.
use rc_launcher.Base.{List, [], ◌∷◌, ◌++◌, map}
use rc_launcher.Base.Text.{Text}

-- Arguments with the notes of their making.
pub record Noted : Type 0 where
  pub args : List Text
  pub notes : List Text

abbrev pub add_note : Text → Noted → Noted
add_note note s = record s { notes = s.notes ++ (note ∷ []) }

abbrev pub drop_notes : Text → List Text → List Text
drop_notes prefix dropped = map (λ d. prefix ++ d) dropped
