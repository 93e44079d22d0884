-- ===== src/Launch/Command/Redact.antt =====
-- The redaction of launch/command.rs: which secrets a redacted text can still hold. A replacement
-- brings in `<redacted>`, which no secret without angle brackets overlaps.
use rc_launcher.Base.{
  ℕ, zero, suc, ◌+◌, ◌≤◌, ◌<◌, ◌≡◌, refl, ap, sym, ◌∙◌, Bool, true, false, ◌&&◌, List, [], ◌∷◌,
  ◌++◌, arith, length, length-drop, drop, Bool-cases, inl, inr, or_false, both_true, leb, leb→le,
  le→leb, ◌==◌,
}
use rc_launcher.Base.Text.{Text, codes, starts_with, Lacks}
use rc_launcher.Launch.Text.{has_text, replace_fuel, replace_text, byte_len, utf8_len}
use rc_launcher.Launch.Command.{redact_with}

-- A secret of more than eight characters, none of them an angle bracket.
pub record Opaque (p : Text) : Type 0 where
  pub long : 8 < length p
  pub no_open : Lacks b'<' p
  pub no_close : Lacks b'>' p

-- The mark, and what stands between its brackets.
abbrev word : Text
word = codes "redacted"

abbrev mark : Text
mark = codes "<redacted>"

and_false : (b : Bool) → (b && false) ≡ false
and_false true = refl
and_false false = refl

-- A text without `>` that is longer than `s` is no prefix of `s` before a `>`.
starts_with-close :
    (p s r : Text) → Lacks b'>' p → length s < length p → starts_with p (s ++ (b'>' ∷ r)) ≡ false
unfolding starts_with Lacks
starts_with-close [] s r h k = absurd (omega arith)
starts_with-close (x ∷ p) [] r h k = rw (h.0) refl
starts_with-close (x ∷ p) (y ∷ s) r h k =
    let rest = starts_with-close p s r h.1 (omega arith) in rw (rest) (and_false (x == y))

starts_with-open : (p r : Text) → Opaque p → starts_with p (b'<' ∷ r) ≡ false
unfolding starts_with Lacks
starts_with-open [] r o = absurd (omega (arith, o.long))
starts_with-open (x ∷ p) r o = rw (o.no_open.0) refl

has_text-close :
    (p s r : Text)
    → Lacks b'>' p
    → length s < length p
    → has_text p (s ++ (b'>' ∷ r)) ≡ has_text p r
unfolding has_text
has_text-close p [] r h k = rw (starts_with-close p [] r h k) refl
has_text-close p (y ∷ s) r h k =
    rw (starts_with-close p (y ∷ s) r h k) (has_text-close p s r h (omega arith))

has_text-mark : (p r : Text) → Opaque p → has_text p (mark ++ r) ≡ has_text p r
unfolding has_text
has_text-mark p r o =
    rw (starts_with-open p (word ++ (b'>' ∷ r)) o)
      (has_text-close p word r o.no_close (omega (arith, o.long)))

module _ (n : ℕ) (q : Text) (c : ℕ) (t : Text) where
  replace_fuel-found :
      starts_with q (c ∷ t) ≡ true
      → replace_fuel (suc n) q mark (c ∷ t)
        ≡ mark ++ replace_fuel n q mark (drop (length q) (c ∷ t))
  unfolding replace_fuel
  replace_fuel-found m = rw (replace_fuel, m) refl

  replace_fuel-missed :
      starts_with q (c ∷ t) ≡ false
      → replace_fuel (suc n) q mark (c ∷ t) ≡ c ∷ replace_fuel n q mark t
  unfolding replace_fuel
  replace_fuel-missed m = rw (replace_fuel, m) refl

replace_fuel-zero : (q t : Text) → replace_fuel zero q mark t ≡ t
unfolding replace_fuel
replace_fuel-zero q t = refl

replace_fuel-nil : (n : ℕ) (q : Text) → replace_fuel n q mark [] ≡ []
unfolding replace_fuel
replace_fuel-nil zero q = refl
replace_fuel-nil (suc n) q = refl

-- A prefix without `<` of the replaced text is one of the text.
starts_with-replace_fuel :
    (n : ℕ) (d q t : Text)
    → Lacks b'<' d
    → starts_with d (replace_fuel n q mark t) ≡ true
    → starts_with d t ≡ true
unfolding starts_with Lacks
starts_with-replace_fuel n [] q t h k = refl
starts_with-replace_fuel zero (x ∷ d) q t h k =
    ap (starts_with (x ∷ d)) (sym (replace_fuel-zero q t)) ∙ k
starts_with-replace_fuel (suc n) (x ∷ d) q [] h k =
    ap (starts_with (x ∷ d)) (sym (replace_fuel-nil (suc n) q)) ∙ k
starts_with-replace_fuel (suc n) (x ∷ d) q (c ∷ t) h k = elim (Bool-cases (starts_with q (c ∷ t))) [
  | inl m ↦
      let rest = replace_fuel n q mark (drop (length q) (c ∷ t)) in
      let b =
        both_true (x == b'<') (starts_with d (word ++ (b'>' ∷ rest)))
          (ap (starts_with (x ∷ d)) (sym (replace_fuel-found n q c t m)) ∙ k) in
      absurd (cc (h.0, b.0))
  | inr m ↦
      let b =
        both_true (x == c) (starts_with d (replace_fuel n q mark t))
          (ap (starts_with (x ∷ d)) (sym (replace_fuel-missed n q c t m)) ∙ k) in
      rw (b.0, starts_with-replace_fuel n d q t h.1 b.1) refl
]

-- Where `p` stands in the text, so does `q`.
abbrev Covers : Text → Text → Text → Type 0
Covers p q t = (k : ℕ) → starts_with p (drop k t) ≡ true → starts_with q (drop k t) ≡ true

drop-nil : (n : ℕ) → drop {A = ℕ} n [] ≡ []
drop-nil zero = refl
drop-nil (suc n) = refl

drop-drop : (m i j : ℕ) (t : Text) → m ≡ j + i → drop i (drop j t) ≡ drop m t
drop-drop m i zero t e = ap (λ k. drop k t) (omega (arith, e))
drop-drop m i (suc j) [] e = drop-nil i ∙ sym (drop-nil m)
drop-drop zero i (suc j) (c ∷ t) e = absurd (omega (arith, e))
drop-drop (suc m) i (suc j) (c ∷ t) e = drop-drop m i j t (omega (arith, e))

Covers-drop : (p q t : Text) (j : ℕ) → Covers p q t → Covers p q (drop j t)
Covers-drop p q t j h k s =
    let e = drop-drop (j + k) k j t (omega arith) in
    ap (starts_with q) e ∙ h (j + k) (ap (starts_with p) (sym e) ∙ s)

starts_with-after :
    (n : ℕ) (p q : Text) (c : ℕ) (t : Text)
    → Lacks b'<' p
    → starts_with p (c ∷ replace_fuel n q mark t) ≡ true
    → starts_with p (c ∷ t) ≡ true
unfolding starts_with Lacks
starts_with-after n [] q c t h k = refl
starts_with-after n (x ∷ d) q c t h k =
    let b = both_true (x == c) (starts_with d (replace_fuel n q mark t)) k in
    rw (b.0, starts_with-replace_fuel n d q t h.1 b.1) refl

has_text-nil : (p : Text) → Opaque p → has_text p [] ≡ false
unfolding has_text starts_with
has_text-nil [] o = absurd (omega (arith, o.long))
has_text-nil (x ∷ p) o = refl

has_text-replace_fuel :
    (n : ℕ) (p q t : Text)
    → Opaque p
    → 0 < length q
    → Covers p q t
    → length t ≤ n
    → has_text p (replace_fuel n q mark t) ≡ false
unfolding has_text
has_text-replace_fuel zero p q [] o l h k =
    ap (has_text p) (replace_fuel-zero q []) ∙ has_text-nil p o
has_text-replace_fuel zero p q (c ∷ t) o l h k = absurd (omega arith)
has_text-replace_fuel (suc n) p q [] o l h k =
    ap (has_text p) (replace_fuel-nil (suc n) q) ∙ has_text-nil p o
has_text-replace_fuel (suc n) p q (c ∷ t) o l h k = elim (Bool-cases (starts_with q (c ∷ t))) [
  | inl m ↦ rw (replace_fuel-found n q c t m) (
      has_text-mark p (replace_fuel n q mark (drop (length q) (c ∷ t))) o
      ∙ has_text-replace_fuel n p q (drop (length q) (c ∷ t)) o l
          (Covers-drop p q (c ∷ t) (length q) h) (omega (arith, length-drop (length q) (c ∷ t))))
  | inr m ↦
      rw (replace_fuel-missed n q c t m)
        (elim (Bool-cases (starts_with p (c ∷ replace_fuel n q mark t))) [
          | inl y ↦ let z = h 0 (starts_with-after n p q c t o.no_open y) in absurd (cc (z, m))
          | inr y ↦ rw (y) (has_text-replace_fuel n p q t o l (λ i. h (suc i)) (omega arith))
        ])
]

-- Where nothing of `p` stands, anything covers it.
Covers-absent : (p q t : Text) → has_text p t ≡ false → Covers p q t
unfolding has_text
Covers-absent p q [] h zero s = absurd (cc (h, s))
Covers-absent p q [] h (suc k) s = absurd (cc (h, s))
Covers-absent p q (c ∷ t) h zero s =
    let a = or_false (starts_with p (c ∷ t)) (has_text p t) h in absurd (cc (a.0, s))
Covers-absent p q (c ∷ t) h (suc k) s =
    let a = or_false (starts_with p (c ∷ t)) (has_text p t) h in Covers-absent p q t a.1 k s

length-le_byte_len : (t : Text) → length t ≤ byte_len t
unfolding byte_len utf8_len
length-le_byte_len [] = omega arith
length-le_byte_len (c ∷ t) = ground (arith, length-le_byte_len t)

byte_len-positive : (t : Text) → 8 ≤ byte_len t → 0 < length t
unfolding byte_len
byte_len-positive [] h = absurd (omega (arith, h))
byte_len-positive (c ∷ t) h = omega arith

-- A text without `p` has none after the redaction.
redact_with-absent :
    (secrets : List Text) (p t : Text)
    → Opaque p
    → has_text p t ≡ false
    → has_text p (redact_with secrets t) ≡ false
unfolding redact_with
redact_with-absent [] p t o h = h
redact_with-absent (q ∷ secrets) p t o h = elim (Bool-cases (leb 8 (byte_len q) && has_text q t)) [
  | inr b ↦ rw (redact_with, b) (redact_with-absent secrets p t o h)
  | inl b ↦
      let l = byte_len-positive q (leb→le 8 (byte_len q) ((both_true _ _ b).0)) in
      rw (redact_with, b)
        (redact_with-absent secrets p (replace_text q mark t) o
          (has_text-replace_fuel (length t) p q t o l (Covers-absent p q t h) (omega arith)))
]

-- A secret of the list that has more than eight characters and no angle bracket is in no redacted text,
-- whatever the other secrets are.
pub redact_with-has_text :
    (before behind : List Text) (p t : Text)
    → Opaque p
    → has_text p (redact_with (before ++ (p ∷ behind)) t) ≡ false
unfolding redact_with
redact_with-has_text (q ∷ before) behind p t o = redact_with-has_text before behind p _ o
redact_with-has_text [] behind p t o = elim (Bool-cases (has_text p t)) [
  | inr b ↦ rw (redact_with, b, and_false (leb 8 (byte_len p))) (redact_with-absent behind p t o b)
  | inl b ↦
      let l = length-le_byte_len p in
      let e = le→leb 8 (byte_len p) (omega (arith, l, o.long)) in
      rw (redact_with, b, e)
        (redact_with-absent behind p (replace_text p mark t) o (
          has_text-replace_fuel (length t) p p t o (omega (arith, o.long)) (λ k s. s)
            (omega arith)))
]
