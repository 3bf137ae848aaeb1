-- ===== src/Scoring/Dedup.antt =====
-- `deduplicate_task_rewards` of planrace/scoring_v2.py: the observations of one task commitment and
-- one strategy share a single reward.
pub mod Kept
mod Groups
pub mod Shares
pub mod Accepts
mod Tests
use planrace_subnet.Digest.Payload.{text_le}
use planrace_subnet.Prelude.{
  ℕ, zero, suc, String, Bool, true, false, not, ◌&&◌, ◌||◌, Option, none, some, List, [], ◌∷◌, ◌++◌,
  map, Result, ok, err, ◌>>=◌, ◌>>◌, raise_if, length, all, leb, ◌==◌, nat_eq, string_eq, pair_eq,
  distinct, if◌then◌else◌,
}
use planrace_subnet.Prelude.Dict.{Dict, lookup, insert, values}
use planrace_subnet.Prelude.Sort.{sort}
use planrace_subnet.Floats.{Floats, FloatError, divide, fmax, fmin}
use planrace_subnet.Scoring.Observations.{EpochObservation}

pub data DedupError : Type 0 where
  inconsistent_metadata duplicate_observation inconsistent_evidence : DedupError
  float_error : FloatError → DedupError

-- `(observation.epoch, observation.family, observation.task_commitment)`
abbrev pub Metadata : Type 0
Metadata = ℕ × (String × String)

-- `(observation.task_commitment, observation.strategy_digest)`
abbrev pub GroupKey : Type 0
GroupKey = String × String

module _ (F : Floats) where
  open F use {Float, of_ℕ, decimal, sub, lt}

  abbrev pub Groups : Type 0
  Groups = Dict GroupKey (List (EpochObservation F))

  abbrev pub metadata : EpochObservation F → Metadata
  metadata o = (o.epoch, (o.family, o.task_commitment))

  abbrev pub group_key : EpochObservation F → GroupKey
  group_key o = (o.task_commitment, o.strategy_digest)

  abbrev pub is_eligible : EpochObservation F → Bool
  is_eligible o = o.available && o.compliant && o.correct

  -- `groups[key].append(observation)` of a `defaultdict(list)`
  pub append_to : GroupKey → EpochObservation F → Groups → Groups
  append_to k o [] = (k, o ∷ []) ∷ []
  append_to k o ((j, os) ∷ g) = if j == k then (j, os ++ o ∷ []) ∷ g else (j, os) ∷ append_to k o g

  pub record Split : Type 0 where
    pub task_metadata : Dict String Metadata
    pub groups : Groups
    pub untouched : List (EpochObservation F)

  -- `task_metadata.setdefault(observation.task_id, metadata)`, and its test
  pub consistent : Split → EpochObservation F → Bool
  consistent s o = elim (lookup o.task_id s.task_metadata) [
    | none ↦ true
    | some m ↦ m == metadata o
  ]

  pub place : EpochObservation F → Split → Split
  unfolding append_to
  place o s =
      if is_eligible o
      then record s { groups = append_to (group_key o) o s.groups }
      else record s { untouched = s.untouched ++ o ∷ [] }

  -- One round of the first loop.
  pub classify : Split → EpochObservation F → Result DedupError Split
  unfolding consistent place
  classify s o = do
    raise_if (not (consistent s o)) inconsistent_metadata
    ok (place o (record s { task_metadata = insert o.task_id (metadata o) s.task_metadata }))

  pub classify_all : Split → List (EpochObservation F) → Result DedupError Split
  unfolding classify
  classify_all s [] = ok s
  classify_all s (o ∷ os) = do s' ← classify s o; classify_all s' os

  best : (Float → Float → Float) → Float → List (EpochObservation F) → Float
  best f x [] = x
  best f x (o ∷ os) = best f (f x o.reward) os

  -- `replace(member, reward=..., duplicate_group_size=...)`
  abbrev pub share : Float → ℕ → EpochObservation F → EpochObservation F
  share reward size o = record o { reward = reward; duplicate_group_size = size }

  -- One round of the second loop. A group is never empty.
  pub share_group : List (EpochObservation F) → Result DedupError (List (EpochObservation F))
  unfolding best
  share_group [] = ok []
  share_group (o ∷ os) = do
    raise_if (not (distinct (map (λ m. m.miner_id) (o ∷ os)))) duplicate_observation
    let spread = sub (best (fmax F) o.reward os) (best (fmin F) o.reward os)
    raise_if (not (all (λ m. m.evidence_digest == o.evidence_digest) os) || lt (decimal 1 9) spread)
        inconsistent_evidence
    elim (divide F o.reward (of_ℕ (length (o ∷ os)))) [
      | err e ↦ err (float_error e)
      | ok shared ↦ ok (map (share shared (length (o ∷ os))) (o ∷ os))
    ]

  pub share_groups :
      List (List (EpochObservation F)) → Result DedupError (List (EpochObservation F))
  unfolding share_group
  share_groups [] = ok []
  share_groups (g ∷ gs) = do shared ← share_group g; rest ← share_groups gs; ok (shared ++ rest)

  -- `sorted(..., key=lambda item: (item.miner_id, item.epoch))`
  pub before : EpochObservation F → EpochObservation F → Bool
  before a b =
      if a.miner_id == b.miner_id then leb a.epoch b.epoch else text_le a.miner_id b.miner_id

  unfoldable pub deduplicate_task_rewards :
      List (EpochObservation F) → Result DedupError (List (EpochObservation F))
  unfolding classify_all share_groups sort before
  deduplicate_task_rewards observations = do
    split ← classify_all (record { task_metadata = []; groups = []; untouched = [] }) observations
    shared ← share_groups (values split.groups)
    ok (sort before (split.untouched ++ shared))
