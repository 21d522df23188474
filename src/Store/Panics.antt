-- ===== src/Store/Panics.antt =====
-- cmd/store/panic_audit.go: the counts of recovered panics, and who may read them. Times are numbers of
-- nanoseconds, and the uint64 counters are not bounded. `byHash` is the index of the list `lru` by the
-- hash of its entries, so the list stands for both; that the two
-- agree is taken for granted.
pub mod Bounded
use aegis_claw.Base.{
  ℕ, ◌+◌, ◌-◌, Bool, true, not, ◌&&◌, ◌||◌, List, [], ◌∷◌, Option, none, some, if◌then◌else◌, keep,
  take, length, ltb, leb,
}
use aegis_claw.Base.Text.{Text, text, same, has_prefix}

pub record Seen : Type 0 where
  pub hash : Text
  pub count : ℕ
  pub first_seen : ℕ
  pub last_seen : ℕ
  pub last_full : ℕ

-- The front of `lru` is the hash seen last.
pub record Deduper : Type 0 where
  pub max : ℕ
  pub interval : ℕ
  pub total : ℕ
  pub evicted : ℕ
  pub lru : List Seen

unfoldable pub new_panic_deduper : ℕ → ℕ → Deduper
new_panic_deduper max interval = record {
  max = if ltb max 1 then 1 else max;
  interval = interval;
  total = 0;
  evicted = 0;
  lru = [];
}

unfoldable pub by_hash : Text → List Seen → Option Seen
by_hash hash [] = none
by_hash hash (e ∷ es) = let rest = by_hash hash es in if same hash e.hash then some e else rest

-- The entries of other hashes, in their order.
abbrev pub others : Text → List Seen → List Seen
others hash es = keep (λ e. not (same hash e.hash)) es

-- What observe returns: the line has the full stack, the count of the hash, and the total.
pub record Observed : Type 0 where
  pub full : Bool
  pub count : ℕ
  pub total : ℕ

abbrev pub again : ℕ → ℕ → Seen → Bool
again interval now e = leb (e.last_full + interval) now

-- A hash that is in the list: counted, and moved to the front.
abbrev pub seen_again : ℕ → Seen → Deduper → Deduper × Observed
seen_again now e d =
    let full = again d.interval now e in
    let e' = record e {
      count = e.count + 1;
      last_seen = now;
      last_full = if full then now else e.last_full;
    } in
    (
      record d { total = d.total + 1; lru = e' ∷ others e.hash d.lru },
      record { full = full; count = e.count + 1; total = d.total + 1 },
    )

-- A new hash, put at the front; the list is cut to its limit from the back.
abbrev pub seen_first : Text → ℕ → Deduper → Deduper × Observed
seen_first hash now d =
    let e : Seen = record {
      hash = hash;
      count = 1;
      first_seen = now;
      last_seen = now;
      last_full = now;
    } in
    let pushed = e ∷ d.lru in
    (
      record d {
        total = d.total + 1;
        evicted = d.evicted + (length pushed - d.max);
        lru = take d.max pushed;
      },
      record { full = true; count = 1; total = d.total + 1 },
    )

abbrev pub observed : Text → ℕ → Deduper → Option Seen → Deduper × Observed
observed hash now d (some e) = seen_again now e d
observed hash now d none = seen_first hash now d

unfoldable pub observe : Text → ℕ → Deduper → Deduper × Observed
unfolding by_hash
observe hash now d = observed hash now d (by_hash hash d.lru)

-- The deduper after a list of panics, each with its time.
unfoldable pub observe_all : Deduper → List (Text × ℕ) → Deduper
unfolding observe
observe_all d [] = d
observe_all d ((hash, now) ∷ rest) = observe_all (observe hash now d).0 rest

-- sort.SliceStable by greater counts first: an entry goes behind those that count as much.
unfoldable pub insert_row : Seen → List Seen → List Seen
insert_row e [] = e ∷ []
insert_row e (x ∷ xs) =
    let rest = insert_row e xs in if ltb x.count e.count then e ∷ x ∷ xs else x ∷ rest

unfoldable pub sort_rows : List Seen → List Seen → List Seen
sort_rows done [] = done
sort_rows done (e ∷ es) = sort_rows (insert_row e done) es

pub record Stats : Type 0 where
  pub total : ℕ
  pub tracked_hashes : ℕ
  pub evicted_hashes : ℕ
  pub max_hashes : ℕ
  pub by_hash : List Seen
  pub by_hash_truncated : Bool

unfoldable pub snapshot : ℕ → Deduper → Stats
unfolding insert_row sort_rows
snapshot top_n d =
    let rows = sort_rows [] d.lru in
    record {
      total = d.total;
      tracked_hashes = length d.lru;
      evicted_hashes = d.evicted;
      max_hashes = d.max;
      by_hash = if ltb top_n (length rows) then take top_n rows else rows;
      by_hash_truncated = ltb top_n (length rows);
    }

unfoldable pub is_host_stats_source : Text → Bool
unfolding has_prefix same
is_host_stats_source source =
    same source (text "daemon-internal")
    || (has_prefix source (text "daemon-internal-")
        && ltb (length (text "daemon-internal-")) (length source))

-- The counts, or the error; panicStatsTopN is 16.
unfoldable pub handle_store_security_stats : Text → Deduper → Option Stats
unfolding is_host_stats_source snapshot
handle_store_security_stats source d =
    if not (is_host_stats_source source) then none else some (snapshot 16 d)
