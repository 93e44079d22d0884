-- ===== src/Game/Library/Maven.antt =====
-- The Maven coordinates of game/library.rs, written and read.
use mathlib.Core.List.{append-nil}
use rc_launcher.Base.{◌≡◌, refl, ◌∙◌, ap, sym, get_elem?, Option, none, some, List, [], ◌∷◌, ◌++◌}
use rc_launcher.Base.Text.{
  Text, codes, split_on, Lacks, split_on_lacking, split_on-append, rsplit_once_lacking,
  rsplit_once-append,
}
use rc_launcher.Game.Library.{Coordinate, parse_maven, of_pieces}

-- `[:classifier]`
abbrev pub classifier_part : Option Text → Text
classifier_part none = []
classifier_part (some c) = b':' ∷ c

-- `group:artifact:version[:classifier]`
abbrev pub coordinate : Coordinate → Text
coordinate c =
    c.group ++ (b':' ∷ (c.artifact ++ (b':' ∷ (c.version ++ classifier_part c.classifier))))

-- `group:artifact:version[:classifier]@ext`
abbrev pub full_coordinate : Coordinate → Text
full_coordinate c = coordinate c ++ (b'@' ∷ c.ext)

-- The pieces of a coordinate hold no colon.
pub record Plain (c : Coordinate) : Type 0 where
  pub group : Lacks b':' c.group
  pub artifact : Lacks b':' c.artifact
  pub version : Lacks b':' c.version
  pub classifier : (t : Text) → c.classifier ≡ some t → Lacks b':' t

abbrev tail_pieces : Option Text → List Text
tail_pieces none = []
tail_pieces (some c) = c ∷ []

split_on-version :
    (v : Text) (o : Option Text)
    → Lacks b':' v
    → ((t : Text) → o ≡ some t → Lacks b':' t)
    → split_on b':' (v ++ classifier_part o) ≡ v ∷ tail_pieces o
split_on-version v none h k = rw (append-nil v) (split_on_lacking b':' v h)
split_on-version v (some c) h k =
    split_on-append b':' v c h ∙ ap (λ l. v ∷ l) (split_on_lacking b':' c (k c refl))

split_on-coordinate :
    (c : Coordinate)
    → Plain c
    → split_on b':' (coordinate c) ≡ c.group ∷ c.artifact ∷ c.version ∷ tail_pieces c.classifier
split_on-coordinate c h = rw (
  split_on-append b':' c.group (c.artifact ++ (b':' ∷ (c.version ++ classifier_part c.classifier)))
      h.group,
  split_on-append b':' c.artifact (c.version ++ classifier_part c.classifier) h.artifact,
  split_on-version c.version c.classifier h.version h.classifier,
)

of_pieces-coordinate :
    (c : Coordinate)
    → of_pieces (c.group ∷ c.artifact ∷ c.version ∷ tail_pieces c.classifier) c.ext ≡ c
of_pieces-coordinate c = ap (λ o. record c { classifier = o }) (fourth c.classifier)
  where
    fourth : (o : Option Text) → get_elem? (tail_pieces o) 0 ≡ o
    fourth none = refl
    fourth (some t) = refl

-- A coordinate that is written with its extension is read back, if no piece of it holds a colon and
-- its extension no `@`.
pub parse_maven-full_coordinate :
    (c : Coordinate) → Plain c → Lacks b'@' c.ext → parse_maven (full_coordinate c) ≡ c
unfolding parse_maven
parse_maven-full_coordinate c h k =
    rw (parse_maven, rsplit_once-append b'@' (coordinate c) c.ext k, split_on-coordinate c h)
      (of_pieces-coordinate c)

-- Without an extension it stands for a `jar`.
pub parse_maven-coordinate :
    (c : Coordinate)
    → Plain c
    → Lacks b'@' (coordinate c)
    → c.ext ≡ codes "jar"
    → parse_maven (coordinate c) ≡ c
unfolding parse_maven
parse_maven-coordinate c h k e =
    rw (parse_maven, rsplit_once_lacking b'@' (coordinate c) k, split_on-coordinate c h, sym e)
      (of_pieces-coordinate c)
