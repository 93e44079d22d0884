-- ===== src/Launch/Path.antt =====
-- Paths of rust/crates/rc-launcher-core/src/launch as texts: how they are joined, and when `PathBuf` takes
-- two of them for equal.
use rc_launcher.Base.{Bool, true, false, ◌||◌, List, [], ◌∷◌, ◌++◌, if◌then◌else◌}
use rc_launcher.Base.Text.{Text, codes, text_eq, split_on, starts_with}
use rc_launcher.Game.Path.{PathBuf, components, path_eq}
use rc_launcher.Launch.Text.{ends_with}

abbrev pub is_empty_text : Text → Bool
is_empty_text [] = true
is_empty_text (c ∷ t) = false

-- `Path::join` on the texts of two paths
unfoldable pub join_path : Text → Text → Text
join_path base t =
    if starts_with (codes "/") t
    then t
    else if is_empty_text base || ends_with (codes "/") base
    then base ++ t
    else base ++ (b'/' ∷ t)

-- `Path::is_absolute`
abbrev pub is_absolute : Text → Bool
is_absolute p = starts_with (codes "/") p

-- `PathBuf::from`, up to its equality: only at the start does `.` stay.
abbrev pub path_parts : List Text → List Text
path_parts [] = []
path_parts (p ∷ ps) = if text_eq p (codes ".") then p ∷ components ps else components (p ∷ ps)

abbrev pub path_of : Text → PathBuf
path_of t = record { absolute = starts_with (codes "/") t; parts = path_parts (split_on b'/' t) }

unfoldable pub contains_path : Text → List Text → Bool
contains_path t [] = false
contains_path t (u ∷ us) =
    let later = contains_path t us in path_eq (path_of u) (path_of t) || later
