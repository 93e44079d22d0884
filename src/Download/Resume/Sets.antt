-- ===== src/Download/Resume/Sets.antt =====
-- The set of complete chunks of download/manager.rs as a sorted list: membership.
use rc_launcher.Base.{ℕ, ◌≡◌, refl, ◌∙◌, ◌||◌, List, [], ◌∷◌, ◌==◌, arith}
use rc_launcher.Download.Resume.{has_chunk, insert_chunk, chunk_set}

pub has_chunk-insert_chunk :
    (i j : ℕ) (xs : List ℕ) → has_chunk i (insert_chunk j xs) ≡ (i == j || has_chunk i xs)
unfolding has_chunk insert_chunk
has_chunk-insert_chunk i j [] = refl
has_chunk-insert_chunk i j (x ∷ xs) = let rest = has_chunk-insert_chunk i j xs in ground arith

pub has_chunk-chunk_set : (i : ℕ) (xs : List ℕ) → has_chunk i (chunk_set xs) ≡ has_chunk i xs
unfolding has_chunk chunk_set
has_chunk-chunk_set i [] = refl
has_chunk-chunk_set i (x ∷ xs) =
    has_chunk-insert_chunk i x (chunk_set xs) ∙ (rw (has_chunk-chunk_set i xs))
