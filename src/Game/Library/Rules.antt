-- ===== src/Game/Library/Rules.antt =====
-- What the rules of game/library.rs decide: the last one that matches.
use rc_launcher.Base.{
  ◌≡◌, refl, ap, ◌∙◌, ◌↔◌, ◌⊎◌, inl, inr, Bool, true, false, List, [], ◌∷◌, ◌++◌, Bool-cases,
  if◌then◌else◌,
}
use rc_launcher.Game.Platform.{Platform}
use rc_launcher.Game.Library.{
  Features, Rule, Library, Action, allow, disallow, is_allow, rule_matches, last_verdict,
  is_allowed,
}

-- None of the rules matches.
unfoldable pub Silent : Platform → Features → List Rule → Type 0
Silent p have [] = Unit {0}
Silent p have (r ∷ rs) = (rule_matches r p have ≡ false) × Silent p have rs

-- The rule is the last one that matches.
pub record LastMatch (p : Platform) (have : Features) (rs : List Rule) (r : Rule) : Type 0 where
  pub before : List Rule
  pub behind : List Rule
  pub split : rs ≡ before ++ (r ∷ behind)
  pub matching : rule_matches r p have ≡ true
  pub silent : Silent p have behind

module _ (p : Platform) (have : Features) where
  last_verdict-Silent :
      (b : Bool) (rs : List Rule) → Silent p have rs → last_verdict p have b rs ≡ b
  unfolding last_verdict Silent
  last_verdict-Silent b [] s = refl
  last_verdict-Silent b (r ∷ rs) s = rw (s.0) (last_verdict-Silent b rs s.1)

  last_verdict-LastMatch :
      (b : Bool) (before behind : List Rule) (r : Rule)
      → rule_matches r p have ≡ true
      → Silent p have behind
      → last_verdict p have b (before ++ (r ∷ behind)) ≡ is_allow r.action
  unfolding last_verdict
  last_verdict-LastMatch b [] behind r m s =
      rw (last_verdict, m) (last_verdict-Silent (is_allow r.action) behind s)
  last_verdict-LastMatch b (q ∷ before) behind r m s =
      last_verdict-LastMatch (if rule_matches q p have then is_allow q.action else b) before behind
        r m s

  -- Either no rule matches, or one of them is the last that does.
  last_match : (rs : List Rule) → Silent p have rs ⊎ ((r : Rule) × LastMatch p have rs r)
  unfolding Silent
  last_match [] = inl tt
  last_match (r ∷ rs) = elim (last_match rs) [
    | inr (q, l) ↦ inr (
      q,
      record {
        before = r ∷ l.before;
        behind = l.behind;
        split = rw (l.split);
        matching = l.matching;
        silent = l.silent;
      },
    )
    | inl s ↦ elim (Bool-cases (rule_matches r p have)) [
      | inl m ↦ inr (r, record { before = []; behind = rs; split = refl; matching = m; silent = s })
      | inr n ↦ inl (n, s)
    ]
  ]

  verdict_of :
      (rs : List Rule) (r : Rule)
      → LastMatch p have rs r
      → last_verdict p have false rs ≡ is_allow r.action
  verdict_of rs r l =
      rw (l.split) (last_verdict-LastMatch false l.before l.behind r l.matching l.silent)

allow_only : (a : Action) → is_allow a ≡ true → a ≡ allow
unfolding is_allow
allow_only allow h = refl
allow_only disallow h = absurd (cc)

allow_allows : is_allow allow ≡ true
unfolding is_allow
allow_allows = refl

-- A library is included exactly if it has no rules, or the last of its rules that matches the
-- platform and the features is an `allow`.
pub is_allowed-iff-LastMatch :
    (lib : Library) (p : Platform) (have : Features)
    → (is_allowed lib p have ≡ true)
      ↔ ((lib.rules ≡ []) ⊎ ((r : Rule) × LastMatch p have lib.rules r × (r.action ≡ allow)))
unfolding is_allowed
is_allowed-iff-LastMatch lib p have = decided lib.rules
  where
    decided :
        (rs : List Rule)
        → (elim rs [ [] ↦ true | r ∷ rs ↦ last_verdict p have false (r ∷ rs) ] ≡ true)
          ↔ ((rs ≡ []) ⊎ ((r : Rule) × LastMatch p have rs r × (r.action ≡ allow)))
    decided [] = (λ _. inl refl, λ _. refl)
    decided (r ∷ rs) = (
      λ h. elim (last_match p have (r ∷ rs)) [
        | inl s ↦ absurd (cc (last_verdict-Silent p have false (r ∷ rs) s, h))
        | inr (q, l) ↦
            let e = verdict_of p have (r ∷ rs) q l in inr (q, l, allow_only q.action (cc (e, h)))
      ],
      λ h. elim h [
        | inl e ↦ absurd (cc)
        | inr (q, l, a) ↦ verdict_of p have (r ∷ rs) q l ∙ ap is_allow a ∙ allow_allows
      ],
    )
