-- ===== src/Game/Path.antt =====
-- The paths of the plans of game/resolve.rs, as `std::path` compares and joins them, and that their
-- equality decides whether they have the same components.
use rc_launcher.Base.{
  ◌≡◌, refl, sym, ap, ◌↔◌, Bool, true, false, ◌&&◌, ◌||◌, List, [], ◌∷◌, ◌++◌, if◌then◌else◌, arith,
}
use rc_launcher.Base.Text.{Text, codes, text_eq, text_eq_iff, split_on, starts_with}

-- `PathBuf`, up to its `==`: whether it starts at the root of the file system, and its components.
pub record PathBuf : Type 0 where
  pub absolute : Bool
  pub parts : List Text

unfoldable pub texts_eq : List Text → List Text → Bool
texts_eq [] [] = true
texts_eq [] (y ∷ ys) = false
texts_eq (x ∷ xs) [] = false
texts_eq (x ∷ xs) (y ∷ ys) = text_eq x y && texts_eq xs ys

abbrev pub bool_eq : Bool → Bool → Bool
bool_eq true b = b
bool_eq false true = false
bool_eq false false = true

unfoldable pub path_eq : PathBuf → PathBuf → Bool
path_eq p q = bool_eq p.absolute q.absolute && texts_eq p.parts q.parts

-- The components between the slashes: an empty one and `.` are none.
unfoldable pub components : List Text → List Text
components [] = []
components (t ∷ ts) =
    let rest = components ts in if text_eq t [] || text_eq t (codes ".") then rest else t ∷ rest

-- `Path::join` to a path that has components: an absolute text takes its place.
unfoldable pub join : PathBuf → Text → PathBuf
join p t =
    let parts = components (split_on b'/' t) in
    if starts_with (codes "/") t
    then record { absolute = true; parts = parts }
    else record p { parts = p.parts ++ parts }

texts_eq_iff : (s t : List Text) → (texts_eq s t ≡ true) ↔ (s ≡ t)
unfolding texts_eq
texts_eq_iff [] [] = (λ h. refl, λ h. refl)
texts_eq_iff [] (y ∷ ys) = (λ h. absurd (cc), λ h. absurd (cc))
texts_eq_iff (x ∷ xs) [] = (λ h. absurd (cc), λ h. absurd (cc))
texts_eq_iff (x ∷ xs) (y ∷ ys) =
    let e = text_eq_iff x y in
    let t = texts_eq_iff xs ys in (λ h. ground (arith, e, t), λ h. ground (arith, e, t))

bool_eq_iff : (a b : Bool) → (bool_eq a b ≡ true) ↔ (a ≡ b)
bool_eq_iff true true = (λ h. refl, λ h. refl)
bool_eq_iff true false = (λ h. absurd (cc), λ h. absurd (cc))
bool_eq_iff false true = (λ h. absurd (cc), λ h. absurd (cc))
bool_eq_iff false false = (λ h. refl, λ h. refl)

pub path_eq_iff : (p q : PathBuf) → (path_eq p q ≡ true) ↔ (p ≡ q)
unfolding path_eq
path_eq_iff p q =
    let e = bool_eq_iff p.absolute q.absolute in
    let t = texts_eq_iff p.parts q.parts in
    (
      λ h.
          same_path p q (and_left (bool_eq p.absolute q.absolute) (texts_eq p.parts q.parts) h)
            (and_right (bool_eq p.absolute q.absolute) (texts_eq p.parts q.parts) h),
      λ h. rw (e.1 (ap (λ x. x.absolute) h), t.1 (ap (λ x. x.parts) h)) refl,
    )
  where
    same_path :
        (p q : PathBuf)
        → bool_eq p.absolute q.absolute ≡ true
        → texts_eq p.parts q.parts ≡ true
        → p ≡ q
    same_path p q a b =
        let a' = (bool_eq_iff p.absolute q.absolute).0 a in
        let b' = (texts_eq_iff p.parts q.parts).0 b in cc (a', b')

    and_left : (a b : Bool) → (a && b) ≡ true → a ≡ true
    and_left a b h = ground arith

    and_right : (a b : Bool) → (a && b) ≡ true → b ≡ true
    and_right a b h = ground arith

pub path_eq_comm : (p q : PathBuf) → path_eq p q ≡ path_eq q p
path_eq_comm p q =
    let there = path_eq_iff p q in
    let back = path_eq_iff q p in
    same_bool (path_eq p q) (path_eq q p) (λ h. back.1 (sym (there.0 h)))
      (λ h. there.1 (sym (back.0 h)))
  where
    same_bool : (a b : Bool) → (a ≡ true → b ≡ true) → (b ≡ true → a ≡ true) → a ≡ b
    same_bool a b f g = ground arith
