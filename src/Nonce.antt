-- ===== src/Nonce.antt =====
-- planrace/nonce.py: `SQLiteNonceStore`. A store is its limits and the rows of its table; the
-- reading of its clock is an argument. Times and nonces are natural numbers; the clock
-- stays within 64 bits, which a nonce need not.
pub mod Laws
mod Tests
use planrace_subnet.Prelude.{
  ℕ, ◌+◌, String, Bool, true, false, ◌||◌, List, [], ◌∷◌, Result, ok, err, leb, ltb, mem, nat_eq,
  string_eq, pair_eq, if◌then◌else◌, filter, length, not,
}
use planrace_subnet.Prelude.Int.{int64_bound}

-- `integer_overflow` is the OverflowError of sqlite3, whose integers have 64 bits.
pub data NonceError : Type 0 where
  limits_not_positive integer_overflow : NonceError

pub record NonceStore : Type 0 where
  pub ttl_ns : ℕ
  pub max_entries : ℕ
  pub rows : List (String × ℕ)

-- `__init__`, over the rows that the database file already holds.
pub open_store : ℕ → ℕ → List (String × ℕ) → Result NonceError NonceStore
open_store ttl_ns max_entries rows =
    if ltb ttl_ns 1 || ltb max_entries 1
    then err limits_not_positive
    else ok (record { ttl_ns = ttl_ns; max_entries = max_entries; rows = rows })

-- `nonce_ns < clock - ttl_ns`, over the integers.
pub is_stale : ℕ → ℕ → String × ℕ → Bool
is_stale clock ttl_ns (hotkey, nonce_ns) = ltb (nonce_ns + ttl_ns) clock

-- The DELETE statement.
pub purge : ℕ → NonceStore → List (String × ℕ)
unfolding is_stale
purge clock s = filter (λ r. not (is_stale clock s.ttl_ns r)) s.rows

-- The count, and the INSERT under the primary key. The rows deleted before stay deleted.
pub admit : ℕ → String × ℕ → List (String × ℕ) → List (String × ℕ) × Result NonceError Bool
admit max_entries key rows =
    if leb max_entries (length rows)
    then (rows, ok false)
    else if leb int64_bound key.1
    then (rows, err integer_overflow)
    else if mem key rows
    then (rows, ok false)
    else (key ∷ rows, ok true)

-- An exception rolls the transaction back, the DELETE included.
pub check_and_store : ℕ → String → ℕ → NonceStore → NonceStore × Result NonceError Bool
unfolding purge admit
check_and_store clock hotkey nonce_ns s =
    let (rows, result) = admit s.max_entries (hotkey, nonce_ns) (purge clock s) in
    elim result [ ok accepted ↦ (record s { rows = rows }, ok accepted) | err e ↦ (s, err e) ]
