-- ===== src/Download/Resume.antt =====
-- `DownloadState` of download/manager.rs, the side-car that records the chunks that are complete.
-- The source's `HashSet` of chunk numbers is kept as its sorted list, in which it is written.
pub mod Sets
use Prim.Native.Nat.{min}
use rc_launcher.Base.{
  ℕ, ◌+◌, ◌-◌, ◌*◌, ◌%◌, Bool, true, false, not, ◌||◌, List, [], ◌∷◌, Option, none, some, ltb, ◌==◌,
  if◌then◌else◌,
}
use rc_launcher.Robust.Backoff.{u64_mod}

pub record DownloadState : Type 0 where
  pub total_size : ℕ
  pub chunk_size : ℕ
  pub completed : List ℕ

-- `DownloadState::new`
abbrev pub new_state : ℕ → ℕ → DownloadState
new_state total chunk_size = record { total_size = total; chunk_size = chunk_size; completed = [] }

-- The bytes of one complete chunk.
abbrev pub chunk_bytes : ℕ → ℕ → ℕ → ℕ
chunk_bytes total chunk_size i =
    let s = i * chunk_size % u64_mod in
    let e = min ((i + 1) * chunk_size % u64_mod) total in if ltb s e then e - s else 0

unfoldable pub sum_chunks : ℕ → ℕ → List ℕ → ℕ
sum_chunks total chunk_size [] = 0
sum_chunks total chunk_size (i ∷ is) =
    (chunk_bytes total chunk_size i + sum_chunks total chunk_size is) % u64_mod

unfoldable pub completed_bytes : DownloadState → ℕ
completed_bytes s =
    if s.chunk_size == 0 then 0 else sum_chunks s.total_size s.chunk_size s.completed

-- `HashSet::contains`
unfoldable pub has_chunk : ℕ → List ℕ → Bool
has_chunk i [] = false
has_chunk i (x ∷ xs) = i == x || has_chunk i xs

-- `HashSet::insert`
unfoldable pub insert_chunk : ℕ → List ℕ → List ℕ
insert_chunk i [] = i ∷ []
insert_chunk i (x ∷ xs) =
    if ltb i x then i ∷ x ∷ xs else if i == x then x ∷ xs else x ∷ insert_chunk i xs

-- `state.completed.iter().copied().collect()`
unfoldable pub chunk_set : List ℕ → List ℕ
unfolding insert_chunk
chunk_set [] = []
chunk_set (i ∷ is) = insert_chunk i (chunk_set is)

-- The state that a run starts from: what the side-car holds, if it parses and is about a file of
-- this size in chunks of this size.
unfoldable pub load_state : ℕ → ℕ → Option DownloadState → DownloadState
load_state total chunk_size none = new_state total chunk_size
load_state total chunk_size (some s) =
    if not (s.total_size == total) || not (s.chunk_size == chunk_size)
    then new_state total chunk_size
    else s
