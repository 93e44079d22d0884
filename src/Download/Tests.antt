-- ===== src/Download/Tests.antt =====
-- Runs of the download manager at concrete inputs: a resource of 5 bytes in chunks of 2.
use rc_launcher.Base.{
  some-injective, ◌++◌, Bool, ℕ, zero, suc, ◌+◌, ◌-◌, ◌/◌, ◌≤◌, ◌<◌, ◌≡◌, refl, sym, ap, true,
  false, List, [], ◌∷◌, take, drop, get_elem?, replicate, ◌∙◌, Option, none, some, ok, err, leb,
  if◌then◌else◌, arith,
}
use rc_launcher.Error.{RcError, timeout, checksum_mismatch}
use rc_launcher.Download.Plan.{plan_chunks, plan_from, div_ceil}
use rc_launcher.Download.Plan.Tiling.{IsTiling, plan_chunks-IsTiling}
use rc_launcher.Download.Resume.{
  DownloadState, has_chunk, load_state, chunk_set, completed_bytes, insert_chunk,
}
use rc_launcher.Download.Chunk.{
  DownloadOptions, default_options, Source, download_chunk, fetch_loop, fetch_once, checked,
  seek_write, record_chunk,
}
use rc_launcher.Download.Chunk.Fetched.{IsHonest}
use rc_launcher.Download.Range.{
  Response, Server, is_accepted, stream_body, receive, fetch_range_into, body, HonoursRanges,
  fetch_range_into-IsHonest,
}
use rc_launcher.Download.Manager.{
  finalize, run_chunks, begin_transfer, presize, is_resumed, md5, DownloadTask, DownloadSummary,
  Files, Services, download_chunked, download_single, hex_eq, digest_of, expected,
}
use rc_launcher.Download.Manager.Complete.{IsResumable, download_chunked_lem}
use rc_launcher.Download.Manager.Returns.{AnswersInTime, download_chunked_returns}
use rc_launcher.Download.Manager.Stale.{download_chunked-of_mismatch, download_chunked-of_no_temp}
use rc_launcher.Download.Manager.Single.{Fails, written_by, download_single_lem}

abbrev content : List ℕ
content = 10 ∷ 11 ∷ 12 ∷ 13 ∷ 14 ∷ []

abbrev range_of : ℕ → ℕ → List ℕ
range_of start last = take (last - start + 1) (drop start content)

-- The first request for a range gets no answer; the next ones get the range.
abbrev server : Server
server start last zero = none
server start last (suc n) =
    some (record { status = 206; pieces = range_of start last ∷ []; breaks_off = false })

append_nil : (xs : List ℕ) → xs ++ [] ≡ xs
append_nil [] = refl
append_nil (x ∷ xs) = ap (λ ys. x ∷ ys) (append_nil xs)

server-HonoursRanges : HonoursRanges content server
server-HonoursRanges = record { sent = sent }
  where
    sent :
        (start last call : ℕ) (r : Response)
        → server start last call ≡ some r
        → is_accepted r.status ≡ true
        → (k : ℕ) × (k ≤ last - start + 1) × (body r.pieces ≡ take k (drop start content))
    sent start last zero r e a = absurd (cc)
    sent start last (suc n) r e a = (
      last - start + 1,
      omega arith,
      ap (λ (x : Response). body x.pieces) (sym (some-injective e))
          ∙ append_nil (range_of start last),
    )

abbrev lossy : Source
lossy = fetch_range_into server

lossy-IsHonest : IsHonest content lossy
lossy-IsHonest = fetch_range_into-IsHonest content server server-HonoursRanges

abbrev options : DownloadOptions
options = record default_options { chunk_size = 2 }

-- A single-shot fetch whose first attempt breaks off after two bytes.
abbrev services : Services
services = record {
  ranges = lossy;
  whole = λ call. if leb 1 call then (content, ok 5) else (10 ∷ 11 ∷ [], err (timeout "slow"));
  probe = err (timeout "slow");
  sha1_path = λ file. file;
  md5_path = λ file. file;
}

abbrev task : DownloadTask
task = record { url = "u"; checksum = none; size = some 5; id = none }

abbrev checked_task : DownloadTask
checked_task = record task { checksum = some (md5 (65 ∷ [])) }

-- One chunk is complete already.
abbrev half : Files
half = record {
  temp = some (0 ∷ 0 ∷ 12 ∷ 13 ∷ 0 ∷ []);
  sidecar = some (record { total_size = 5; chunk_size = 2; completed = 1 ∷ [] });
  dest = none;
}

plan_chunks-IsTiling_example : IsTiling 5 2 (plan_chunks 5 2)
plan_chunks-IsTiling_example = plan_chunks-IsTiling 5 2 (omega arith) (omega arith)

half_good :
    (p : ℕ)
    → p < 5
    → has_chunk (p / 2) (1 ∷ []) ≡ true
    → get_elem? (0 ∷ 0 ∷ 12 ∷ 13 ∷ 0 ∷ []) p ≡ get_elem? content p
unfolding has_chunk
half_good zero h m = absurd (cc)
half_good (suc zero) h m = absurd (cc)
half_good (suc (suc zero)) h m = refl
half_good (suc (suc (suc zero))) h m = refl
half_good (suc (suc (suc (suc zero)))) h m = absurd (cc)
half_good (suc (suc (suc (suc (suc p))))) h m = absurd (omega arith)

abbrev completed_of : Option DownloadState → List ℕ
completed_of none = []
completed_of (some s) = s.completed

half-IsResumable : IsResumable content 2 half
half-IsResumable s e w w' =
    let q : s.completed ≡ 1 ∷ [] = ap completed_of (sym e) in
    (0 ∷ 0 ∷ 12 ∷ 13 ∷ 0 ∷ [], refl, refl, λ p l m. half_good p l (rw q at m))

download_chunked_lem_example :
    let r = download_chunked services options task 5 half in
    ((summary : DownloadSummary)
      → r.1 ≡ ok summary
      → (r.0 ≡ record { temp = none; sidecar = none; dest = some content }) × (summary.size ≡ 5))
    × ((e : RcError) → r.1 ≡ err e → (r.0.dest ≡ half.dest) × IsResumable content 2 r.0)
download_chunked_lem_example =
    download_chunked_lem content services options lossy-IsHonest (omega arith) (omega arith) task
      half (omega arith) half-IsResumable

abbrev all_listed : DownloadState
all_listed = record { total_size = 5; chunk_size = 2; completed = 0 ∷ 1 ∷ 2 ∷ [] }

listed : (j : ℕ) → j < div_ceil 5 2 → has_chunk j all_listed.completed ≡ true
unfolding has_chunk
listed zero h = refl
listed (suc zero) h = refl
listed (suc (suc zero)) h = refl
listed (suc (suc (suc j))) h = absurd (omega arith)

abbrev lost : Files
lost = record { temp = none; sidecar = some all_listed; dest = none }

abbrev wrong : Files
wrong = record { temp = some (replicate 5 9); sidecar = some all_listed; dest = none }

download_chunked-of_no_temp_example :
    (resumed : Bool) × (download_chunked services options task 5 lost ≡ (
      record { temp = none; sidecar = none; dest = some (replicate 5 0) },
      ok (record { size = 5; resumed = resumed }),
    ))
download_chunked-of_no_temp_example =
    download_chunked-of_no_temp services options 5 (omega arith) (omega arith) task lost all_listed
      (omega arith) refl refl refl listed refl refl

mismatch :
    hex_eq (digest_of services (md5 (65 ∷ [])) (replicate 5 9)) (expected (md5 (65 ∷ []))) ≡ false
unfolding hex_eq digest_of expected
mismatch = refl

download_chunked-of_mismatch_example :
    (s' : DownloadState) × (download_chunked services options checked_task 5 wrong
      ≡ (record wrong { sidecar = some s' }, err (checksum_mismatch "" "" "")))
    × (s'.total_size ≡ 5)
    × (s'.chunk_size ≡ 2)
    × ((j : ℕ) → j < div_ceil 5 2 → has_chunk j s'.completed ≡ true)
download_chunked-of_mismatch_example =
    download_chunked-of_mismatch services options 5 (omega arith) (omega arith) checked_task wrong
      all_listed (replicate 5 9) (md5 (65 ∷ [])) (omega arith) refl refl refl listed refl refl refl
      mismatch

Fails-first : (i : ℕ) → i < 1 → Fails (services.whole i).1
Fails-first zero h = (timeout "slow", refl)
Fails-first (suc i) h = absurd (omega arith)

download_single_lem_example : download_single services options task half ≡ (
  record { temp = none; sidecar = none; dest = some (written_by services 2 0) },
  ok (record { size = 5; resumed = false }),
)
download_single_lem_example =
    download_single_lem services options task half 1 5 (omega arith) Fails-first refl refl

answers : AnswersInTime lossy options 5
unfolding receive is_accepted stream_body
answers zero h = (1, omega arith, refl)
answers (suc zero) h = (1, omega arith, refl)
answers (suc (suc zero)) h = (1, omega arith, refl)
answers (suc (suc (suc i))) h = absurd (omega arith)

download_chunked_returns_example : download_chunked services options task 5 half ≡ (
  record { temp = none; sidecar = none; dest = some content },
  ok (record { size = 5; resumed = is_resumed services options 5 half }),
)
download_chunked_returns_example =
    download_chunked_returns content services options task half lossy-IsHonest answers (omega arith)
      (omega arith) (omega arith) (λ cs given. absurd (cc)) half-IsResumable

-- The first answer to each request is the whole resource; the next ones are the range.
abbrev stubborn : Server
stubborn start last zero = some (record { status = 200; pieces = content ∷ []; breaks_off = false })
stubborn start last (suc n) = server start last (suc n)

abbrev fresh : Files
fresh = record { temp = none; sidecar = none; dest = none }

-- The whole resource is written at the offset of each chunk, the last of which leaves the file longer
-- than the resource; the download succeeds.
grown_run :
    (download_chunked
      (record services { ranges = fetch_range_into stubborn })
      options
      task
      5
      fresh).0.dest
    ≡ some (10 ∷ 11 ∷ 12 ∷ 13 ∷ 14 ∷ 11 ∷ 12 ∷ 13 ∷ 14 ∷ [])
unfolding download_chunked finalize run_chunks begin_transfer presize download_chunk fetch_loop
    fetch_once checked seek_write receive is_accepted stream_body record_chunk plan_chunks plan_from
    load_state chunk_set completed_bytes has_chunk insert_chunk
grown_run = refl
