-- ===== src/Scoring/Allocate/Bound.antt =====
-- The capped weights: who receives one, and how large it can be.
use mathlib.Core.Path.{subst}
use planrace_subnet.Prelude.{
  suc, ◌≡◌, refl, inl, inr, String, true, List, [], ◌∷◌, Result, ok, err, Result-cases, Bool-cases,
  arith, length, mem, string_eq, All,
}
use planrace_subnet.Prelude.Dict.{keys, values}
use planrace_subnet.Prelude.DictLaws.{keys-insert, values-insert, All_keys}
use planrace_subnet.Prelude.Sort.{sort, All-sort}
use planrace_subnet.Floats.{Floats, FloatError, or_raise, overflow}
use planrace_subnet.Scoring.Allocate.{
  Weights, capped_loop, settle, settled, weight_le, put_residue, lift_error, capped_normalize,
}
use planrace_subnet.Scoring.Stats.{fabs}
use planrace_subnet.Scoring.Allocate.Capped.{start}
use planrace_subnet.Scoring.Allocate.Rounds.{IsCapped, IsPositive, IsFinal, capped_loop-IsFinal}

module _ (F : Floats) where
  open F use {Float, of_ℕ, decimal, add, lt, le, fsum}

  abbrev IsKnown : Weights F → String × Float → Type 0
  IsKnown d x = mem x.0 (keys d) ≡ true

  put_residue-IsFinal :
      (raw : Weights F) (m residue : Float) (w : Weights F) (order : List (String × Float))
      → All (IsKnown w) order
      → IsFinal F raw m w
      → IsFinal F raw m (put_residue F m residue order w)
  unfolding put_residue
  put_residue-IsFinal raw m residue w [] known h = h
  put_residue-IsFinal raw m residue w ((j, v) ∷ order) known h =
      elim (Bool-cases (le (add v residue) (add m (decimal 1 12)))) [
        | inl fits ↦ rw fits (record {
          recipients = λ k.
              ground
                (arith, keys-insert k j (add v residue) w, h.recipients k, string_eq.beq_iff k j);
          bounded = values-insert (IsCapped F m) j (add v residue) w (inr (inr fits)) h.bounded;
        })
        | inr over ↦ rw over (put_residue-IsFinal raw m residue w order known.1 h)
      ]

  settled-IsFinal :
      (raw : Weights F) (m total : Float) (w : Weights F)
      → IsFinal F raw m w
      → IsFinal F raw m (settled F m total w)
  unfolding settled
  settled-IsFinal raw m total w h =
      elim (Bool-cases (lt (decimal 1 15) (fabs F (F.sub (of_ℕ 1) total)))) [
        | inl noticeable ↦ rw noticeable (
            put_residue-IsFinal raw m (F.sub (of_ℕ 1) total) w (sort (weight_le F) w)
              (All-sort (weight_le F) (IsKnown w) w (All_keys w)) h)
        | inr small ↦ rw small h
      ]

  settle-IsFinal :
      (raw : Weights F) (m : Float) (w w' : Weights F)
      → IsFinal F raw m w
      → settle F m w ≡ ok w'
      → IsFinal F raw m w'
  unfolding settle
  settle-IsFinal raw m w w' h e = elim (Result-cases (or_raise F (fsum (values w)) overflow)) [
    | inr (x, bad) ↦ absurd (ground arith)
    | inl (total, et) ↦
        let eq : settled F m total w ≡ w' = ground arith in
        subst (IsFinal F raw m) eq (settled-IsFinal raw m total w h)
  ]

  lift_error_ok :
      (r : Result FloatError (Weights F)) (w : Weights F) → lift_error r ≡ ok w → r ≡ ok w
  unfolding lift_error
  lift_error_ok (ok a) w h = ground arith
  lift_error_ok (err x) w h = absurd (ground arith)

  -- Capping positive raw weights, whenever it succeeds, gives a weight to every recipient of the
  -- input and to nobody else, and each weight is the cap, or did not exceed the cap by more than
  -- 1e-15, or is at most the cap and 1e-12.
  pub capped_normalize_bound :
      (m : Float) (raw w : Weights F)
      → All (IsPositive F) (values raw)
      → capped_normalize F m raw ≡ ok w
      → IsFinal F raw m w
  unfolding capped_normalize
  capped_normalize_bound m raw w pos h =
      elim (Result-cases (capped_loop F (suc (length raw)) m (start F raw))) [
        | inr (x, bad) ↦ absurd (ground arith)
        | inl (v, ev) ↦
            settle-IsFinal raw m v w
              (capped_loop-IsFinal F (suc (length raw)) raw m (start F raw) v
                (record { covers = λ k. refl; capped = tt; positive = pos }) ev)
              (lift_error_ok (settle F m v) w (ground arith))
      ]
