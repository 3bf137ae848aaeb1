-- ===== src/Auth/Replay.antt =====
-- The replay stores of planrace/auth_v2.py. The reading of a store's own clock is an argument.
pub mod Stores
use planrace_subnet.Prelude.{
  ℕ, ◌<◌, ◌≡◌, ◌≢◌, String, Bool, true, false, not, ◌||◌, List, [], ◌∷◌, length, filter, leb, ltb,
  mem, nat_eq, string_eq, pair_eq, if◌then◌else◌, Result, ok, err,
}
use planrace_subnet.Prelude.Int.{int64_bound}
use planrace_subnet.Prelude.Dict.{Dict, contains}

-- `(miner_hotkey, request_nonce, request_id)`
abbrev pub ReplayKey : Type 0
ReplayKey = String × (ℕ × String)

-- `integer_overflow` is the OverflowError of sqlite3, whose integers have 64 bits.
pub data ReplayError : Type 0 where
  max_entries_not_positive integer_overflow : ReplayError

-- `ResponseReplayStore`: what verification relies on. A store remembers a key until a time: as
-- long as its clock shows less, the key stays and is refused.
pub record ResponseReplayStore : Type 1 where
  pub Store : Type 0
  pub check_and_store : ℕ → ReplayKey → ℕ → Store → Store × Result ReplayError Bool
  pub Remembers : ReplayKey → ℕ → Store → Type 0
  pub remembers :
      (clock : ℕ) (key : ReplayKey) (expires : ℕ) (s : Store)
      → (check_and_store clock key expires s).1 ≡ ok true
      → Remembers key expires (check_and_store clock key expires s).0
  pub keeps :
      (clock : ℕ) (other : ReplayKey) (until : ℕ) (key : ReplayKey) (expires : ℕ) (s : Store)
      → clock < expires
      → Remembers key expires s
      → Remembers key expires (check_and_store clock other until s).0
  pub refuses :
      (clock : ℕ) (key : ReplayKey) (until expires : ℕ) (s : Store)
      → clock < expires
      → Remembers key expires s
      → (check_and_store clock key until s).1 ≢ ok true

-- `MemoryResponseReplayStore`
pub record MemoryStore : Type 0 where
  pub keys : List ReplayKey
  pub max_entries : ℕ

pub open_memory : ℕ → Result ReplayError MemoryStore
open_memory max_entries =
    if ltb max_entries 1
    then err max_entries_not_positive
    else ok (record { keys = []; max_entries = max_entries })

-- `MemoryResponseReplayStore.check_and_store`
pub memory_check_and_store : ℕ → ReplayKey → ℕ → MemoryStore → MemoryStore × Result ReplayError Bool
memory_check_and_store clock key expires s =
    if mem key s.keys
    then (s, ok false)
    else if leb s.max_entries (length s.keys)
    then (s, ok false)
    else (record s { keys = key ∷ s.keys }, ok true)

-- `SQLiteResponseReplayStore`: the rows with their expiry.
pub record SqliteStore : Type 0 where
  pub rows : Dict ReplayKey ℕ
  pub max_entries : ℕ

-- `__init__`, over the rows that the database file already holds.
pub open_sqlite : ℕ → Dict ReplayKey ℕ → Result ReplayError SqliteStore
open_sqlite max_entries rows =
    if ltb max_entries 1
    then err max_entries_not_positive
    else ok (record { rows = rows; max_entries = max_entries })

-- `DELETE ... WHERE expires_at_unix_ms <= ?`
pub purge : ℕ → Dict ReplayKey ℕ → Dict ReplayKey ℕ
purge clock = filter (λ row. ltb clock row.1)

-- The count, and the INSERT under the primary key.
pub admit : ℕ → ReplayKey → ℕ → Dict ReplayKey ℕ → Dict ReplayKey ℕ × Result ReplayError Bool
admit max_entries key expires rows =
    if leb max_entries (length rows)
    then (rows, ok false)
    else if leb int64_bound key.1.0 || leb int64_bound expires
    then (rows, err integer_overflow)
    else if contains key rows
    then (rows, ok false)
    else ((key, expires) ∷ rows, ok true)

-- `SQLiteResponseReplayStore.check_and_store`. An exception rolls the transaction back, the DELETE
-- included.
unfoldable pub sqlite_check_and_store :
    ℕ → ReplayKey → ℕ → SqliteStore → SqliteStore × Result ReplayError Bool
unfolding purge admit
sqlite_check_and_store clock key expires s =
    let (rows, result) = admit s.max_entries key expires (purge clock s.rows) in
    elim result [ ok accepted ↦ (record s { rows = rows }, ok accepted) | err e ↦ (s, err e) ]
