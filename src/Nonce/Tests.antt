-- ===== src/Nonce/Tests.antt =====
-- Concrete runs of the nonce store.
use planrace_subnet.Prelude.{
  ℕ, ◌<◌, ◌≡◌, refl, ◌⊎◌, ◌↔◌, true, false, String, [], ◌∷◌, mem, length, list_eq, nat_eq,
  string_eq, pair_eq, arith, ok,
}
use planrace_subnet.Prelude.Int.{int64_bound}
use planrace_subnet.Nonce.{NonceStore, purge, check_and_store}
use planrace_subnet.Nonce.Laws.{
  IsValid, check_and_store-IsValid, check_and_store-accepts, Call, run, no_replay,
}

abbrev fresh_store : NonceStore
fresh_store = record { ttl_ns = 100; max_entries = 2; rows = ("a", 5) ∷ [] }

fresh_store-IsValid : IsValid fresh_store
fresh_store-IsValid = record { bounded = omega arith; unique = refl }

check_and_store-IsValid_example : IsValid (check_and_store 50 "b" 40 fresh_store).0
check_and_store-IsValid_example =
    check_and_store-IsValid {s = fresh_store} 50 "b" 40 fresh_store-IsValid

check_and_store-accepts_example : ((check_and_store 50 "b" 40 fresh_store).1 ≡ ok true) ↔ (
    (length (purge 50 fresh_store) < 2)
    × (40 < int64_bound)
    × ((mem {A = String × ℕ} ("b", 40) (("a", 5) ∷ []) ≡ false) ⊎ (140 < 50)))
check_and_store-accepts_example = check_and_store-accepts 50 "b" 40 fresh_store

abbrev call : ℕ → String → ℕ → Call
call clock hotkey nonce_ns = record { clock = clock; hotkey = hotkey; nonce_ns = nonce_ns }

no_replay_example :
    (check_and_store 120 "b" 40
      (run (check_and_store 50 "b" 40 fresh_store).0 (call 110 "c" 100 ∷ call 115 "b" 41 ∷ []))).1
    ≡ ok false
unfolding check_and_store int64_bound
no_replay_example =
    no_replay fresh_store (call 50 "b" 40) (call 110 "c" 100 ∷ call 115 "b" 41 ∷ [])
      (call 120 "b" 40) refl (omega arith, (omega arith, tt)) (omega arith)
