-- ===== src/Mirror.antt =====
-- net/mirror.rs: the mirrors of the download hosts, and the URLs that they offer for one. The parser
-- of URLs (the crate `url`) is an argument.
use rc_launcher.Base.{ℕ, Bool, false, Option, none, some, List, [], ◌∷◌, ◌++◌, leb, if◌then◌else◌}
use rc_launcher.Base.Text.{Text, codes, text_eq, contains, trim_start, trim_end}

-- What the code asks of a parsed URL (`host_str`, `path`, `query`).
pub record Url : Type 0 where
  pub host : Option Text
  pub path : Text
  pub query : Option Text

pub record MirrorSource : Type 0 where
  pub id : Text
  pub name : Text
  pub base_url : Text
  pub path_prefix : Text
  pub hosts : List Text

-- `MOJANG_HOSTS`
unfoldable pub mojang_hosts : List Text
mojang_hosts =
    codes "launcher.mojang.com"
    ∷ codes "launchermeta.mojang.com"
    ∷ codes "piston-meta.mojang.com"
    ∷ codes "piston-data.mojang.com"
    ∷ codes "resources.download.minecraft.net"
    ∷ codes "libraries.minecraft.net"
    ∷ codes "api.mojang.com"
    ∷ codes "authserver.mojang.com"
    ∷ codes "session.minecraft.net"
    ∷ []

-- `MirrorSource::new`
abbrev pub new_source : Text → Text → Text → MirrorSource
new_source id name base_url = record {
  id = id;
  name = name;
  base_url = base_url;
  path_prefix = [];
  hosts = [];
}

unfoldable pub can_mirror : MirrorSource → Text → Bool
can_mirror m host = elim m.hosts [
  | [] ↦ contains host mojang_hosts
  | h ∷ hs ↦ contains host (h ∷ hs)
]

-- `path_part` in `rewrite`
unfoldable pub path_part : Text → Text → Text
path_part [] path = path
path_part (c ∷ prefix) path = b'/' ∷ ((c ∷ prefix) ++ (b'/' ∷ trim_start b'/' path))

abbrev pub query_part : Option Text → Text
query_part none = []
query_part (some q) = b'?' ∷ q

-- The URL on the mirror, of a parsed one that it can serve.
abbrev pub moved : MirrorSource → Url → Text
moved m u =
    trim_end b'/' m.base_url
    ++ (path_part (trim_start b'/' (trim_end b'/' m.path_prefix)) u.path ++ query_part u.query)

module _ (parse : Text → Option Url) where
  unfoldable pub rewrite : MirrorSource → Text → Option Text
  rewrite m url = elim (parse url) [
    | none ↦ none
    | some u ↦ elim u.host [
      | none ↦ none
      | some host ↦ if can_mirror m host then some (moved m u) else none
    ]
  ]

  -- `if let Some(u) = m.rewrite(url) { out.push(u) }`, before what the later mirrors add
  abbrev pub offer : MirrorSource → Text → List Text → List Text
  offer m url later = elim (rewrite m url) [ none ↦ later | some u ↦ u ∷ later ]

  -- The loop over the mirrors that are not the preferred one.
  unfoldable pub offers : Option Text → Text → List MirrorSource → List Text
  offers best url [] = []
  offers best url (m ∷ ms) =
      let later = offers best url ms in if is_best m.id best then later else offer m url later
    where
      is_best : Text → Option Text → Bool
      is_best id none = false
      is_best id (some b) = text_eq id b

-- `MirrorProvider::get`, in its list of mirrors
unfoldable pub find_mirror : Text → List MirrorSource → Option MirrorSource
find_mirror id [] = none
find_mirror id (m ∷ ms) = let later = find_mirror id ms in if text_eq m.id id then some m else later

-- `MirrorProvider`: the mirrors, the preferred one, and the measured latencies
pub record MirrorProvider : Type 0 where
  pub mirrors : List MirrorSource
  pub best : Option Text
  pub latencies : List (Text × ℕ)

-- `MirrorProvider::new`
abbrev pub new_provider : List MirrorSource → MirrorProvider
new_provider mirrors = record { mirrors = mirrors; best = none; latencies = [] }

abbrev pub set_best : Text → MirrorProvider → MirrorProvider
set_best id p = record p { best = some id }

-- `record`, the newest latency of a mirror first
abbrev pub record_latency : Text → ℕ → MirrorProvider → MirrorProvider
record_latency id latency p = record p { latencies = (id, latency) ∷ p.latencies }

-- The mirror that `best_id` and `get` find.
unfoldable pub preferred : MirrorProvider → Option MirrorSource
preferred p = elim p.best [ none ↦ none | some id ↦ find_mirror id p.mirrors ]

unfoldable pub rewrite_best : (Text → Option Url) → MirrorProvider → Text → Option Text
rewrite_best parse p url = elim (preferred p) [ none ↦ none | some m ↦ rewrite parse m url ]

unfoldable pub rewrite_all : (Text → Option Url) → MirrorProvider → Text → List Text
rewrite_all parse p url =
    let others = offers parse p.best url p.mirrors in
    elim (preferred p) [ none ↦ others | some m ↦ offer parse m url others ]

-- `MirrorLatency`, the latency in nanoseconds
pub record MirrorLatency : Type 0 where
  pub id : Text
  pub ok : Bool
  pub latency : ℕ

-- `min_by_key` over the mirrors that answered: the first of the least
unfoldable pub fastest : List MirrorLatency → Option MirrorLatency
fastest [] = none
fastest (m ∷ ms) = elim (fastest ms) [
  | none ↦ if m.ok then some m else none
  | some n ↦ if m.ok then (if leb m.latency n.latency then some m else some n) else some n
]

unfoldable pub select_best : List MirrorLatency → Option Text
select_best measured = elim (fastest measured) [ none ↦ none | some m ↦ some m.id ]

-- What `measure` records: each answer of a mirror, in order.
unfoldable pub record_all : List MirrorLatency → MirrorProvider → MirrorProvider
record_all [] p = p
record_all (m ∷ ms) p = record_all ms (if m.ok then record_latency m.id m.latency p else p)

-- `speed_test` on what the probes measured
unfoldable pub speed_test : List MirrorLatency → MirrorProvider → Option Text × MirrorProvider
speed_test measured p =
    let q = record_all measured p in
    elim (select_best measured) [ none ↦ (none, q) | some id ↦ (some id, set_best id q) ]
