-- ===== src/Scoring/Plan/Masses.antt =====
-- The sign of the raw masses of the behaviors of `allocate_weights`.
use planrace_subnet.Prelude.{
  ℕ, ◌≡◌, refl, ap, inl, inr, String, List, [], ◌∷◌, Bool-cases, string_eq, nat_eq, ◌==◌, All,
}
use planrace_subnet.Prelude.Dict.{keys, values}
use planrace_subnet.Floats.{Floats, fmin}
use planrace_subnet.Scoring.Allocate.{Weights}
use planrace_subnet.Scoring.Allocate.Rounds.{IsPositive}
use planrace_subnet.Scoring.Plan.{
  Aggregate, Groups, add_mass, strategy_mass, smallest, least, raw_groups,
}

module _ (F : Floats) (sha256 : List ℕ → String) where
  open F use {Float, of_ℕ, add, lt, le, le_of_lt, le_of_ℕ, add_pos}

  abbrev pub Earns : Aggregate F sha256 → Type 0
  Earns a = IsPositive F a.reward

  -- There is a number, and every number is positive.
  abbrev pub IsFull : List Float → Type 0
  IsFull [] = ⊥
  IsFull (x ∷ xs) = IsPositive F x × All (IsPositive F) xs

  -- There is a member, and every member earns.
  abbrev pub IsEarning : List (Aggregate F sha256) → Type 0
  IsEarning [] = ⊥
  IsEarning (a ∷ as') = Earns a × All Earns as'

  add_mass-IsFull :
      (k : String) (x : Float) (d : Weights F)
      → IsPositive F x
      → All (IsPositive F) (values d)
      → IsFull (values (add_mass F sha256 k x d))
  unfolding add_mass
  add_mass-IsFull k x [] hx h = (add_pos (of_ℕ 0) x (le_of_ℕ 0 0 refl) hx, tt)
  add_mass-IsFull k x ((j, v) ∷ d) hx h = elim (Bool-cases (j == k)) [
    | inl same ↦ rw same (add_pos v x (le_of_lt (of_ℕ 0) v h.0) hx, h.1)
    | inr other ↦
        rw other
          (h.0, all_of_full (values (add_mass F sha256 k x d)) (add_mass-IsFull k x d hx h.1))
  ]
    where
      all_of_full : (xs : List Float) → IsFull xs → All (IsPositive F) xs
      all_of_full [] f = elim f [ ]
      all_of_full (y ∷ ys) f = f

  strategy_mass-IsFull :
      (d : Weights F) (as' : List (Aggregate F sha256))
      → IsFull (values d)
      → All Earns as'
      → IsFull (values (strategy_mass F sha256 d as'))
  unfolding strategy_mass
  strategy_mass-IsFull d [] h hs = h
  strategy_mass-IsFull [] (a ∷ as') h hs = elim h [ ]
  strategy_mass-IsFull (e ∷ d) (a ∷ as') h hs =
      strategy_mass-IsFull (add_mass F sha256 a.strategy_digest a.reward (e ∷ d)) as'
        (add_mass-IsFull a.strategy_digest a.reward (e ∷ d) hs.0 h) hs.1

  smallest-IsPositive :
      (x : Float) (xs : List Float)
      → IsPositive F x
      → All (IsPositive F) xs
      → IsPositive F (smallest F sha256 x xs)
  unfolding smallest fmin
  smallest-IsPositive x [] hx h = hx
  smallest-IsPositive x (y ∷ ys) hx h = elim (Bool-cases (lt y x)) [
    | inl less ↦ rw less (smallest-IsPositive y ys h.0 h.1)
    | inr more ↦ rw more (smallest-IsPositive x ys hx h.1)
  ]

  least-IsPositive : (xs : List Float) → IsFull xs → IsPositive F (least F sha256 xs)
  unfolding least
  least-IsPositive [] h = elim h [ ]
  least-IsPositive (x ∷ xs) h = smallest-IsPositive x xs h.0 h.1

  group-IsPositive :
      (as' : List (Aggregate F sha256))
      → IsEarning as'
      → IsPositive F (least F sha256 (values (strategy_mass F sha256 [] as')))
  group-IsPositive [] h = elim h [ ]
  group-IsPositive (a ∷ as') h = least-IsPositive (values (strategy_mass F sha256 [] (a ∷ as'))) (
      unfold strategy_mass in
      strategy_mass-IsFull (add_mass F sha256 a.strategy_digest a.reward []) as'
        (add_mass-IsFull a.strategy_digest a.reward [] h.0 tt) h.1)

  pub raw_groups-IsPositive :
      (g : Groups F sha256)
      → All IsEarning (values g)
      → All (IsPositive F) (values (raw_groups F sha256 g))
  unfolding raw_groups
  raw_groups-IsPositive [] h = tt
  raw_groups-IsPositive ((k, as') ∷ g) h = (group-IsPositive as' h.0, raw_groups-IsPositive g h.1)

  pub keys-raw_groups : (g : Groups F sha256) → keys (raw_groups F sha256 g) ≡ keys g
  unfolding raw_groups
  keys-raw_groups [] = refl
  keys-raw_groups ((k, as') ∷ g) = ap (λ ks. k ∷ ks) (keys-raw_groups g)
