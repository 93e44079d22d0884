-- ===== src/Download/Range.antt =====
-- `fetch_range_into` of download/client.rs: one request for a range of bytes, whose body is written as
-- it arrives. What the server answers is a parameter. A server that answers with the whole resource
-- (status 200), which is accepted, does not honour ranges.
use rc_launcher.Base.{
  ℕ, zero, suc, ◌+◌, ◌-◌, ◌≤◌, ◌<◌, ◌≡◌, refl, ap, ◌∙◌, Bool, true, false, ◌||◌, List, [], ◌∷◌,
  ◌++◌, length, take, drop, get_elem?, get_elem?-take, get_elem?-drop, length-append, Option, none,
  some, ok, err, ok-injective, Bool-cases, inl, inr, if◌then◌else◌, ◌==◌, arith,
}
use rc_launcher.Error.{RcResult, network, download}
use rc_launcher.Download.Chunk.{Source}
use rc_launcher.Download.Chunk.Fetched.{IsHonest}

-- A response: its status, the pieces of its body, and whether it breaks off after them.
pub record Response : Type 0 where
  pub status : ℕ
  pub pieces : List (List ℕ)
  pub breaks_off : Bool

-- What the server answers to a request for a range, by the number of the call; `none` if the request
-- could not be sent.
abbrev pub Server : Type 0
Server = ℕ → ℕ → ℕ → Option Response

-- The statuses `OK` and `PARTIAL_CONTENT`
unfoldable pub is_accepted : ℕ → Bool
is_accepted status = status == 206 || status == 200

-- The loop over the body: the bytes that it writes, and the count that it returns.
unfoldable pub stream_body : List (List ℕ) → Bool → ℕ → List ℕ × RcResult ℕ
stream_body [] true total = ([], err (network "failed to read body"))
stream_body [] false total = ([], ok total)
stream_body (piece ∷ pieces) breaks_off total =
    let rest = stream_body pieces breaks_off (total + length piece) in (piece ++ rest.0, rest.1)

unfoldable pub receive : Option Response → List ℕ × RcResult ℕ
receive none = ([], err (network "request failed"))
receive (some r) =
    if is_accepted r.status
    then stream_body r.pieces r.breaks_off 0
    else ([], err (download "unexpected HTTP status"))

abbrev pub fetch_range_into : Server → Source
fetch_range_into server start last call = receive (server start last call)

abbrev pub body : List (List ℕ) → List ℕ
body [] = []
body (piece ∷ pieces) = piece ++ body pieces

-- A server that honours ranges: what it sends with a status that is accepted are bytes of the
-- resource from the start of the range, and not more than the range has.
pub record HonoursRanges (content : List ℕ) (server : Server) : Type 0 where
  pub sent :
      (start last call : ℕ) (r : Response)
      → server start last call ≡ some r
      → is_accepted r.status ≡ true
      → (k : ℕ) × (k ≤ last - start + 1) × (body r.pieces ≡ take k (drop start content))

stream_body_lem :
    (pieces : List (List ℕ)) (breaks_off : Bool) (total n : ℕ)
    → ((stream_body pieces breaks_off total).0 ≡ body pieces)
      × ((stream_body pieces breaks_off total).1 ≡ ok n → total + length (body pieces) ≡ n)
unfolding stream_body
stream_body_lem [] true total n = (refl, λ h. absurd (cc))
stream_body_lem [] false total n = (refl, λ h. let e = ok-injective h in omega (arith, e))
stream_body_lem (piece ∷ pieces) breaks_off total n =
    let (written, counted) = stream_body_lem pieces breaks_off (total + length piece) n in
    (
      ap (λ bs. piece ++ bs) written,
      λ h. let c = counted h in omega (arith, c, length-append piece (body pieces)),
    )

length-take : (n : ℕ) (xs : List ℕ) → length (take n xs) ≤ n
length-take zero xs = omega arith
length-take (suc n) [] = omega arith
length-take (suc n) (x ∷ xs) = omega (arith, length-take n xs)

module _ (content : List ℕ) (server : Server) (honours : HonoursRanges content server) where
  received :
      (start last call : ℕ) (o : Option Response)
      → server start last call ≡ o
      → (length (receive o).0 ≤ last - start + 1)
        × ((n i : ℕ)
            → (receive o).1 ≡ ok n
            → i < n
            → (length (receive o).0 ≡ n)
              × (get_elem? (receive o).0 i ≡ get_elem? content (start + i)))
  unfolding receive
  received start last call none e = (omega arith, λ n i h l. absurd (cc))
  received start last call (some r) e = elim (Bool-cases (is_accepted r.status)) [
    | inr a ↦ rw (a) (omega arith, λ n i h l. absurd (cc))
    | inl a ↦
        let (k, small, same) = honours.sent start last call r e a in
        let short = length-take k (drop start content) in
        let written = (stream_body_lem r.pieces r.breaks_off 0 0).0 ∙ same in
        rw (a, written)
          (
            omega (arith, short),
            λ n i h l.
                let size : length (take k (drop start content)) ≡ n =
                  omega (arith, (stream_body_lem r.pieces r.breaks_off 0 n).1 h, ap length same) in
                (
                  size,
                  get_elem?-take k i (drop start content) (omega (arith, short, size))
                      ∙ get_elem?-drop start i content,
                ),
          )
  ]

  -- Over a server that honours ranges, the source writes what it says and no more than was asked.
  pub fetch_range_into-IsHonest : IsHonest content (fetch_range_into server)
  fetch_range_into-IsHonest = record {
    bounded = λ start last call ordered. (received start last call _ refl).0;
    truthful = λ start last call n i h l. (received start last call _ refl).1 n i h l;
  }
