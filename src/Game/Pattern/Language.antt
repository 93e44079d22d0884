-- ===== src/Game/Pattern/Language.antt =====
-- Which texts a pattern of game/platform.rs stands for, as a relation, and that the matcher decides
-- it.
use rc_launcher.Base.{
  ℕ, ◌≡◌, refl, ◌↔◌, inl, inr, Bool, true, ◌&&◌, List, [], ◌∷◌, Bool-cases, arith,
}
use rc_launcher.Base.Text.{Text}
use rc_launcher.Game.Pattern.{Tok, Quant, once, star, plus, Node, match_one, try_each, matches_at}

-- A node stands for one character, for any number of them, or for one or more.
pub data Matches : List Node → Text → Type 0 where
  empty : Matches [] []
  one :
      {tok : Tok} {ch : ℕ} {ns : List Node} {t : Text}
      → match_one tok ch ≡ true
      → Matches ns t
      → Matches (record { tok = tok; quant = once } ∷ ns) (ch ∷ t)
  leave :
      {tok : Tok} {ns : List Node} {t : Text}
      → Matches ns t
      → Matches (record { tok = tok; quant = star } ∷ ns) t
  take :
      {tok : Tok} {ch : ℕ} {ns : List Node} {t : Text}
      → match_one tok ch ≡ true
      → Matches (record { tok = tok; quant = star } ∷ ns) t
      → Matches (record { tok = tok; quant = star } ∷ ns) (ch ∷ t)
  some_more :
      {tok : Tok} {ch : ℕ} {ns : List Node} {t : Text}
      → match_one tok ch ≡ true
      → Matches (record { tok = tok; quant = star } ∷ ns) t
      → Matches (record { tok = tok; quant = plus } ∷ ns) (ch ∷ t)

and_split : (a b : Bool) → (a && b) ≡ true → (a ≡ true) × (b ≡ true)
and_split a b h = ground arith

module _ (tok : Tok) (ns : List Node)
    (decides : (t : Text) → (matches_at ns t ≡ true) ↔ Matches ns t) where
  try_each_sound :
      (t : Text)
      → try_each (matches_at ns) tok t ≡ true
      → Matches (record { tok = tok; quant = star } ∷ ns) t
  unfolding try_each
  try_each_sound [] h = leave ((decides []).0 h)
  try_each_sound (ch ∷ t) h = elim (Bool-cases (matches_at ns (ch ∷ t))) [
    | inl e ↦ leave ((decides (ch ∷ t)).0 e)
    | inr e ↦
        let (m, more) = and_split (match_one tok ch) (try_each (matches_at ns) tok t) (rw e at h) in
        take m (try_each_sound t more)
  ]

  try_each_complete :
      (t : Text)
      → Matches (record { tok = tok; quant = star } ∷ ns) t
      → try_each (matches_at ns) tok t ≡ true
  unfolding try_each
  try_each_complete [] (leave d) = (decides []).1 d
  try_each_complete (ch ∷ t) (leave d) = rw ((decides (ch ∷ t)).1 d)
  try_each_complete (ch ∷ t) (take m d) =
      let more = try_each_complete t d in ground (arith, m, more)

module _ (tok : Tok) (ns : List Node)
    (decides : (t : Text) → (matches_at ns t ≡ true) ↔ Matches ns t) where
  node_decides :
      (q : Quant) (t : Text)
      → (matches_at (record { tok = tok; quant = q } ∷ ns) t ≡ true)
        ↔ Matches (record { tok = tok; quant = q } ∷ ns) t
  unfolding matches_at
  node_decides star t = (try_each_sound tok ns decides t, try_each_complete tok ns decides t)
  node_decides once [] = (λ h. absurd (cc), λ d. elim d [ ])
  node_decides once (ch ∷ t) = (
    (λ h.
        let (m, rest) = and_split (match_one tok ch) (matches_at ns t) h in
        one m ((decides t).0 rest)),
    once_complete ch t,
  )
    where
      once_complete :
          (ch : ℕ) (t : Text)
          → Matches (record { tok = tok; quant = once } ∷ ns) (ch ∷ t)
          → (match_one tok ch && matches_at ns t) ≡ true
      once_complete ch t (one m d) = rw (m, (decides t).1 d)
  node_decides plus [] = (λ h. absurd (cc), λ d. elim d [ ])
  node_decides plus (ch ∷ t) = (
    (λ h.
        let (m, rest) = and_split (match_one tok ch) (try_each (matches_at ns) tok t) h in
        some_more m (try_each_sound tok ns decides t rest)),
    plus_complete ch t,
  )
    where
      plus_complete :
          (ch : ℕ) (t : Text)
          → Matches (record { tok = tok; quant = plus } ∷ ns) (ch ∷ t)
          → (match_one tok ch && try_each (matches_at ns) tok t) ≡ true
      plus_complete ch t (some_more m d) = rw (m, try_each_complete tok ns decides t d)

-- The backtracking matcher accepts exactly the texts that the nodes stand for.
pub matches_at-iff-Matches : (ns : List Node) (t : Text) → (matches_at ns t ≡ true) ↔ Matches ns t
matches_at-iff-Matches [] [] = unfold matches_at in (λ h. empty, λ d. refl)
matches_at-iff-Matches [] (ch ∷ t) = unfold matches_at in (λ h. absurd (cc), λ d. elim d [ ])
matches_at-iff-Matches (n ∷ ns) t = node_decides n.tok ns (matches_at-iff-Matches ns) n.quant t
