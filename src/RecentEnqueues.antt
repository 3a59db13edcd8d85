-- ===== src/RecentEnqueues.antt =====
-- `_RecentEnqueues` of src/cow_indexer/storage/clickhouse.py: the identities that this process
-- wrote to the work queue in the last `ttl` milliseconds, at most `max_entries` of them. The
-- ordered dictionary is the list of its entries, least recently used first.
pub mod Bounds
pub mod Suppression
use cow_indexer.Prelude.{
  ℕ, ◌+◌, Bool, true, false, ◌&&◌, Option, none, some, List, [], ◌∷◌, ◌++◌, ltb, if◌then◌else◌,
  length, Text, text_eq,
}

abbrev pub Seen : Type 0
Seen = List (Text × ℕ)

pub record RecentEnqueues : Type 0 where
  pub ttl : ℕ
  pub max_entries : ℕ
  pub seen : Seen

unfoldable pub enabled : RecentEnqueues → Bool
enabled r = ltb 0 r.ttl && ltb 0 r.max_entries

-- `self._seen.get(work_id)`.
unfoldable pub lookup : Text → Seen → Option ℕ
lookup k [] = none
lookup k ((j, v) ∷ l) = if text_eq j k then some v else lookup k l

unfoldable pub without : Text → Seen → Seen
without k [] = []
without k ((j, v) ∷ l) = let rest = without k l in if text_eq j k then rest else (j, v) ∷ rest

-- `self._seen[work_id] = v` and `move_to_end`.
unfoldable pub put_last : Text → ℕ → Seen → Seen
unfolding without
put_last k v l = without k l ++ (k, v) ∷ []

-- `expires_at is not None and expires_at > now`.
unfoldable pub is_live : Option ℕ → ℕ → Bool
is_live none now = false
is_live (some expires_at) now = ltb now expires_at

abbrev expiry : Option ℕ → ℕ → ℕ
expiry none d = d
expiry (some e) d = e

-- The loop over `work_ids`: the identities to write, and the entries.
unfoldable pub take_each : ℕ → ℕ → List Text → Seen → List Text × Seen
take_each ttl now [] seen = ([], seen)
take_each ttl now (work_id ∷ rest) seen =
    let found = lookup work_id seen in
    let live = is_live found now in
    let (fresh, seen') =
      take_each ttl now rest
        (put_last work_id (if live then expiry found now else now + ttl) seen) in
    (if live then fresh else work_id ∷ fresh, seen')

-- `while len(self._seen) > self.max_entries: self._seen.popitem(last=False)`.
unfoldable pub evict : ℕ → Seen → Seen
evict bound [] = []
evict bound (e ∷ l) = let rest = evict bound l in if ltb bound (length (e ∷ l)) then rest else e ∷ l

unfoldable pub take_new : RecentEnqueues → List Text → ℕ → List Text × RecentEnqueues
take_new r work_ids now =
    if enabled r
    then (let (fresh, seen) = take_each r.ttl now work_ids r.seen in
        (fresh, record r { seen = evict r.max_entries seen }))
    else (work_ids, r)
