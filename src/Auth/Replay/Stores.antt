-- ===== src/Auth/Replay/Stores.antt =====
-- The replay stores of planrace/auth_v2.py as implementations of the interface.
use planrace_subnet.Prelude.{
  ℕ, ◌≤◌, ◌<◌, ◌≡◌, ◌≢◌, refl, ok, String, true, some, [], ◌∷◌, length, ltb, mem, nat_eq, string_eq,
  pair_eq, arith, beq_refl, length-filter-le,
}
use planrace_subnet.Prelude.Dict.{Dict, lookup}
use planrace_subnet.Auth.Replay.{
  ReplayKey, ResponseReplayStore, MemoryStore, SqliteStore, memory_check_and_store, purge,
  sqlite_check_and_store,
}

pub memory_remembers :
    (clock : ℕ) (key : ReplayKey) (expires : ℕ) (s : MemoryStore)
    → (memory_check_and_store clock key expires s).1 ≡ ok true
    → mem key (memory_check_and_store clock key expires s).0.keys ≡ true
unfolding memory_check_and_store
memory_remembers clock key expires s h = ground (arith, beq_refl {A = ReplayKey} key)

pub memory_keeps :
    (clock : ℕ) (other : ReplayKey) (until : ℕ) (key : ReplayKey) (s : MemoryStore)
    → mem key s.keys ≡ true
    → mem key (memory_check_and_store clock other until s).0.keys ≡ true
unfolding memory_check_and_store
memory_keeps clock other until key s h = ground arith

pub memory_refuses :
    (clock : ℕ) (key : ReplayKey) (until : ℕ) (s : MemoryStore)
    → mem key s.keys ≡ true
    → (memory_check_and_store clock key until s).1 ≢ ok true
unfolding memory_check_and_store
memory_refuses clock key until s h = ground arith

-- `MemoryResponseReplayStore` keeps what it accepted for good.
abbrev pub memory_store : ResponseReplayStore
memory_store = record {
  Store = MemoryStore;
  check_and_store = memory_check_and_store;
  Remembers = λ key expires s. mem key s.keys ≡ true;
  remembers = memory_remembers;
  keeps = λ clock other until key expires s _ h. memory_keeps clock other until key s h;
  refuses = λ clock key until expires s _ h. memory_refuses clock key until s h;
}

-- A row that has not expired survives the purge.
lookup-purge :
    (clock : ℕ) (key : ReplayKey) (expires : ℕ) (rows : Dict ReplayKey ℕ)
    → clock < expires
    → lookup key rows ≡ some expires
    → lookup key (purge clock rows) ≡ some expires
unfolding purge
lookup-purge clock key expires [] fresh h = h
lookup-purge clock key expires ((j, v) ∷ rows) fresh h =
    ground (arith, lookup-purge clock key expires rows fresh)

pub sqlite_remembers :
    (clock : ℕ) (key : ReplayKey) (expires : ℕ) (s : SqliteStore)
    → (sqlite_check_and_store clock key expires s).1 ≡ ok true
    → lookup key (sqlite_check_and_store clock key expires s).0.rows ≡ some expires
unfolding sqlite_check_and_store
sqlite_remembers clock key expires s h = ground (arith, beq_refl {A = ReplayKey} key)

pub sqlite_keeps :
    (clock : ℕ) (other : ReplayKey) (until : ℕ) (key : ReplayKey) (expires : ℕ) (s : SqliteStore)
    → clock < expires
    → lookup key s.rows ≡ some expires
    → lookup key (sqlite_check_and_store clock other until s).0.rows ≡ some expires
unfolding sqlite_check_and_store
sqlite_keeps clock other until key expires s fresh h = ground (
  arith,
  lookup-purge clock key expires s.rows fresh h,
  (pair_eq {A = String} {B = ℕ × String}).beq_iff other key,
)

pub sqlite_refuses :
    (clock : ℕ) (key : ReplayKey) (until expires : ℕ) (s : SqliteStore)
    → clock < expires
    → lookup key s.rows ≡ some expires
    → (sqlite_check_and_store clock key until s).1 ≢ ok true
unfolding sqlite_check_and_store
sqlite_refuses clock key until expires s fresh h =
    ground (arith, lookup-purge clock key expires s.rows fresh h)

-- `SQLiteResponseReplayStore` keeps what it accepted until the expiry.
abbrev pub sqlite_store : ResponseReplayStore
sqlite_store = record {
  Store = SqliteStore;
  check_and_store = sqlite_check_and_store;
  Remembers = λ key expires s. lookup key s.rows ≡ some expires;
  remembers = sqlite_remembers;
  keeps = sqlite_keeps;
  refuses = sqlite_refuses;
}

-- The row limit of the SQLite store holds after a call if it held before it.
pub sqlite_check_and_store-bounded :
    (clock : ℕ) (key : ReplayKey) (expires : ℕ) (s : SqliteStore)
    → length s.rows ≤ s.max_entries
    → length (sqlite_check_and_store clock key expires s).0.rows ≤ s.max_entries
unfolding sqlite_check_and_store
sqlite_check_and_store-bounded clock key expires s h =
    ground (arith, length-filter-le (λ row. ltb clock row.1) s.rows)

purge-purge :
    (clock : ℕ) (rows : Dict ReplayKey ℕ) → purge clock (purge clock rows) ≡ purge clock rows
unfolding purge
purge-purge clock [] = refl
purge-purge clock ((j, v) ∷ rows) = ground (arith, purge-purge clock rows)

-- What is stored when the clock shows its expiry is stored again at that time.
pub expired_again :
    (clock : ℕ) (key : ReplayKey) (expires : ℕ) (s : SqliteStore)
    → clock ≡ expires
    → (sqlite_check_and_store clock key expires s).1 ≡ ok true
    → (sqlite_check_and_store clock key expires (sqlite_check_and_store clock key expires s).0).1
      ≡ ok true
unfolding sqlite_check_and_store
expired_again clock key expires s late h = ground (arith, purge-purge clock s.rows)
