-- ===== src/Log/Tail.antt =====
-- What the log buffer of launch/process.rs keeps.
use rc_launcher.Base.{
  ℕ, zero, suc, ◌+◌, ◌-◌, ◌≤◌, ◌<◌, ◌≡◌, refl, sym, ap, ◌∙◌, inl, inr, List, [], ◌∷◌, ◌++◌, length,
  drop, length-append, length-drop, ◌==◌, ==_iff, Bool-cases, if◌then◌else◌, arith,
}
use native.Mathlib.Decide.{dec_lt}
use rc_launcher.Log.{LogLine, LogBuffer, new_log, push, push_all}

-- The buffer holds the end of what was pushed, as much of it as fits, and counts the rest.
pub record IsTail (pushed : List LogLine) (b : LogBuffer) : Type 0 where
  pub some_room : 0 < b.capacity
  pub kept : b.lines ≡ drop (length pushed - b.capacity) pushed
  pub counted : b.dropped ≡ length pushed - b.capacity

drop_nothing : (n : ℕ) → ◌≡◌ {A = List LogLine} (drop n []) []
drop_nothing zero = refl
drop_nothing (suc n) = refl

drop_append : (n : ℕ) (xs ys : List LogLine) → n ≤ length xs → drop n (xs ++ ys) ≡ drop n xs ++ ys
drop_append zero xs ys h = refl
drop_append (suc n) [] ys h = absurd (omega arith)
drop_append (suc n) (x ∷ xs) ys h = drop_append n xs ys (omega arith)

drop_more : (n m k : ℕ) (xs : List LogLine) → k ≡ m + n → drop n (drop m xs) ≡ drop k xs
drop_more n zero k xs e = ap (λ j. drop j xs) (omega arith)
drop_more n (suc m) zero xs e = absurd (omega arith)
drop_more zero (suc m) (suc k) [] e = refl
drop_more (suc n) (suc m) (suc k) [] e = refl
drop_more n (suc m) (suc k) (x ∷ xs) e = drop_more n m k xs (omega arith)

push-IsTail :
    (pushed : List LogLine) (b : LogBuffer) (l : LogLine)
    → IsTail pushed b
    → IsTail (pushed ++ l ∷ []) (push b l)
unfolding push
push-IsTail pushed b l t =
    let d = length pushed - b.capacity in
    let n = length-append pushed (l ∷ []) in
    let held : length b.lines ≡ length pushed - (length pushed - b.capacity) =
      ap length t.kept ∙ length-drop (length pushed - b.capacity) pushed in
    elim (Bool-cases (length b.lines == b.capacity)) [
      | inl e ↦
          let full = (==_iff (length b.lines) b.capacity).0 e in
          let k : length (pushed ++ l ∷ []) - b.capacity ≡ length pushed - b.capacity + 1 =
            omega (arith, t.some_room) in
          rw (e, push)
            (record {
              some_room = t.some_room;
              kept =
                  ap (λ z. drop 1 z ++ l ∷ []) t.kept
                  ∙ ap (λ z. z ++ l ∷ []) (drop_more 1 d (d + 1) pushed refl)
                  ∙ sym (drop_append (d + 1) pushed (l ∷ []) (omega (arith, t.some_room)))
                  ∙ ap (λ z. drop z (pushed ++ l ∷ [])) (sym k);
              counted = omega (arith, t.counted);
            })
      | inr e ↦
          let short : ¬ (length b.lines ≡ b.capacity) =
            λ q. absurd (cc (e, (==_iff (length b.lines) b.capacity).1 q)) in
          let below : length pushed < b.capacity = elim (dec_lt (length pushed) b.capacity) [
            | yes q ↦ q
            | no q ↦ absurd (short (omega arith))
          ] in
          let none_lost : d ≡ 0 = omega arith in
          let none_lost' : length (pushed ++ l ∷ []) - b.capacity ≡ 0 = omega arith in
          rw (e, push)
            (record {
              some_room = t.some_room;
              kept = rw none_lost' (ap (λ z. z ++ l ∷ []) (rw none_lost at t.kept));
              counted = omega (arith, t.counted);
            })
    ]

append_nil : (xs : List LogLine) → xs ++ [] ≡ xs
append_nil [] = refl
append_nil (x ∷ xs) = ap (◌∷◌ x) (append_nil xs)

append_one :
    (xs : List LogLine) (l : LogLine) (ls : List LogLine) → xs ++ (l ∷ ls) ≡ (xs ++ l ∷ []) ++ ls
append_one [] l ls = refl
append_one (x ∷ xs) l ls = ap (◌∷◌ x) (append_one xs l ls)

push-capacity : (b : LogBuffer) (l : LogLine) → (push b l).capacity ≡ b.capacity
unfolding push
push-capacity b l = elim (Bool-cases (length b.lines == b.capacity)) [ inl e ↦ rw e | inr e ↦ rw e ]

push_all-capacity : (ls : List LogLine) (b : LogBuffer) → (push_all b ls).capacity ≡ b.capacity
unfolding push_all
push_all-capacity [] b = refl
push_all-capacity (l ∷ ls) b = push_all-capacity ls (push b l) ∙ push-capacity b l

push_all-IsTail :
    (ls pushed : List LogLine) (b : LogBuffer)
    → IsTail pushed b
    → IsTail (pushed ++ ls) (push_all b ls)
unfolding push_all
push_all-IsTail [] pushed b t = rw (append_nil pushed) t
push_all-IsTail (l ∷ ls) pushed b t =
    rw (append_one pushed l ls)
      (push_all-IsTail ls (pushed ++ l ∷ []) (push b l) (push-IsTail pushed b l t))

-- A new log buffer to which any lines are pushed holds the last of them, oldest first, as many as
-- its capacity, which is 2048 for a capacity of 0; and it has counted every line that it lost.
pub push_all-IsTail_new :
    (capacity : ℕ) (ls : List LogLine)
    → IsTail ls (push_all (new_log capacity) ls)
      × ((push_all (new_log capacity) ls).capacity ≡ (if capacity == 0 then 2048 else capacity))
unfolding new_log
push_all-IsTail_new capacity ls = (
  push_all-IsTail ls [] (new_log capacity)
      (record { some_room = ground arith; kept = sym (drop_nothing _); counted = omega arith }),
  push_all-capacity ls (new_log capacity),
)
