-- ===== src/Nonce/Laws.antt =====
-- The laws of `SQLiteNonceStore`: its storage, its admissions, and replays.
use planrace_subnet.Prelude.{
  ℕ, ◌+◌, ◌≤◌, ◌<◌, ◌≡◌, refl, ◌↔◌, ◌⊎◌, String, true, false, not, ◌&&◌, List, [], ◌∷◌, arith, mem,
  distinct, mem-filter, distinct-filter, length, length-filter-le, nat_eq, string_eq, pair_eq, All,
  ok, beq_refl,
}
use planrace_subnet.Prelude.Int.{int64_bound}
use planrace_subnet.Nonce.{NonceStore, is_stale, purge, check_and_store}

pub record IsValid (s : NonceStore) : Type 0 where
  pub bounded : length s.rows ≤ s.max_entries
  pub unique : distinct s.rows ≡ true

-- The row limit and the primary key hold after a call if they held before it, whatever the clock
-- shows.
pub check_and_store-IsValid :
    {s : NonceStore} (clock : ℕ) (hotkey : String) (nonce_ns : ℕ)
    → IsValid s
    → IsValid (check_and_store clock hotkey nonce_ns s).0
unfolding check_and_store
check_and_store-IsValid {s} clock hotkey nonce_ns v = ground (
  arith,
  length-filter-le (λ r. not (is_stale clock s.ttl_ns r)) s.rows,
  distinct-filter (λ r. not (is_stale clock s.ttl_ns r)) s.rows,
)

mem-purge :
    (clock : ℕ) (key : String × ℕ) (s : NonceStore)
    → mem key (purge clock s) ≡ (mem key s.rows && not (is_stale clock s.ttl_ns key))
unfolding purge
mem-purge clock key s = mem-filter (λ r. not (is_stale clock s.ttl_ns r)) key s.rows

-- A request is admitted exactly when the fresh rows leave room, its nonce is in the range of SQLite's
-- integers, and it is not on record or is on record and has passed its retention.
pub check_and_store-accepts :
    (clock : ℕ) (hotkey : String) (nonce_ns : ℕ) (s : NonceStore)
    → ((check_and_store clock hotkey nonce_ns s).1 ≡ ok true) ↔ (
        (length (purge clock s) < s.max_entries)
        × (nonce_ns < int64_bound)
        × ((mem (hotkey, nonce_ns) s.rows ≡ false) ⊎ (nonce_ns + s.ttl_ns < clock)))
unfolding check_and_store
check_and_store-accepts clock hotkey nonce_ns s = (
  λ h. ground (arith, mem-purge clock (hotkey, nonce_ns) s),
  λ h. ground (arith, mem-purge clock (hotkey, nonce_ns) s),
)

pub record Call : Type 0 where
  pub clock : ℕ
  pub hotkey : String
  pub nonce_ns : ℕ

-- The store after a sequence of admissions.
pub run : NonceStore → List Call → NonceStore
run s [] = s
run s (c ∷ cs) = run (check_and_store c.clock c.hotkey c.nonce_ns s).0 cs

module _ (hotkey : String) (nonce_ns ttl_ns : ℕ) where
  abbrev pub IsFresh : Call → Type 0
  IsFresh c = c.clock ≤ nonce_ns + ttl_ns

  record Holds (s : NonceStore) : Type 0 where
    retention : s.ttl_ns ≡ ttl_ns
    recorded : mem (hotkey, nonce_ns) s.rows ≡ true
    in_range : nonce_ns < int64_bound

  check_and_store-Holds :
      {s : NonceStore} (c : Call)
      → IsFresh c
      → Holds s
      → Holds (check_and_store c.clock c.hotkey c.nonce_ns s).0
  unfolding check_and_store
  check_and_store-Holds {s} c fresh h = ground (arith, mem-purge c.clock (hotkey, nonce_ns) s)

  run-Holds : (cs : List Call) {s : NonceStore} → All IsFresh cs → Holds s → Holds (run s cs)
  unfolding run
  run-Holds [] fresh h = h
  run-Holds (c ∷ cs) fresh h = run-Holds cs fresh.1 (check_and_store-Holds c fresh.0 h)

  Holds-check_and_store :
      (s : NonceStore) (clock : ℕ)
      → s.ttl_ns ≡ ttl_ns
      → (check_and_store clock hotkey nonce_ns s).1 ≡ ok true
      → Holds (check_and_store clock hotkey nonce_ns s).0
  unfolding check_and_store
  Holds-check_and_store s clock e h = ground (arith, beq_refl {A = String × ℕ} (hotkey, nonce_ns))

  refused_of_Holds :
      {s : NonceStore} (clock : ℕ)
      → clock ≤ nonce_ns + ttl_ns
      → Holds s
      → (check_and_store clock hotkey nonce_ns s).1 ≡ ok false
  unfolding check_and_store
  refused_of_Holds {s} clock fresh h = ground (arith, mem-purge clock (hotkey, nonce_ns) s)

-- Once a request was admitted, it is refused for as long as no clock reading has passed the end
-- of its nonce's retention, whatever other requests come between.
pub no_replay :
    (s : NonceStore) (first : Call) (between : List Call) (last : Call)
    → (check_and_store first.clock first.hotkey first.nonce_ns s).1 ≡ ok true
    → All (IsFresh first.hotkey first.nonce_ns s.ttl_ns) between
    → IsFresh first.hotkey first.nonce_ns s.ttl_ns last
    → let s' = run (check_and_store first.clock first.hotkey first.nonce_ns s).0 between in
      (check_and_store last.clock first.hotkey first.nonce_ns s').1 ≡ ok false
no_replay s first between last accepted fresh late =
    refused_of_Holds first.hotkey first.nonce_ns s.ttl_ns last.clock late (
      run-Holds first.hotkey first.nonce_ns s.ttl_ns between fresh
        (Holds-check_and_store first.hotkey first.nonce_ns s.ttl_ns s first.clock refl accepted))
