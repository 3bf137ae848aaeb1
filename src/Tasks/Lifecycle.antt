-- ===== src/Tasks/Lifecycle.antt =====
-- `TaskLifecycleV2` of planrace/taskgen_v2.py: submissions, the seal and the reveal. Each method
-- runs under the lock of the object, and is one step.
pub mod Sealed
mod Tests
use planrace_subnet.Prelude.{
  ℕ, String, Bool, true, false, not, List, [], ◌∷◌, map, Result, ok, err, ltb, leb, ◌==◌, string_eq,
  if◌then◌else◌,
}
use planrace_subnet.Prelude.Dict.{Dict, values, contains, insert}
use planrace_subnet.Models.Bundle.{OptimizationBundle}
use planrace_subnet.Models.Task.{PublicTaskV2}
use planrace_subnet.Models.Reveal.{TaskRevealV2}
use planrace_subnet.Models.Exchange.{SignedOptimizationResponse}
use planrace_subnet.Auth.Replay.{ResponseReplayStore}
use planrace_subnet.Auth.Verify.{VerificationError, Attempt, verify_signed_response}
use planrace_subnet.Tasks.Equality.{task_eq}

pub record PrivateTaskV2 : Type 0 where
  pub public : PublicTaskV2
  pub reveal : TaskRevealV2

pub data TaskPhase : Type 0 where
  open_phase sealed revealed : TaskPhase

-- The codes of `LifecycleError`; `verification` is an exception of the verification.
pub data LifecycleError : Type 0 where
  submissions_sealed submission_after_deadline request_not_for_lifecycle_task : LifecycleError
  wrong_task duplicate_request seal_before_deadline already_revealed : LifecycleError
  reveal_before_deadline submissions_not_sealed : LifecycleError
  verification : VerificationError → LifecycleError

pub record TaskLifecycleV2 : Type 0 where
  pub task : PrivateTaskV2
  pub phase : TaskPhase
  pub submissions : Dict String SignedOptimizationResponse

-- `__init__`
pub start : PrivateTaskV2 → TaskLifecycleV2
start task = record { task = task; phase = open_phase; submissions = [] }

abbrev pub is_open : TaskPhase → Bool
is_open open_phase = true
is_open _ = false

abbrev pub is_revealed : TaskPhase → Bool
is_revealed revealed = true
is_revealed _ = false

-- The checks of `submit_verified` before the verification.
pub refusal : TaskLifecycleV2 → Attempt → Result LifecycleError (Unit {0})
refusal l a =
    if not (is_open l.phase)
    then err submissions_sealed
    else if leb l.task.public.deadline_unix_ms a.now_unix_ms
    then err submission_after_deadline
    else if not (task_eq a.request.task l.task.public)
    then err request_not_for_lifecycle_task
    else if not (a.response.task_id == l.task.public.task_id)
    then err wrong_task
    else if contains a.response.request_id l.submissions
    then err duplicate_request
    else ok tt

pub seal :
    ℕ → TaskLifecycleV2 → TaskLifecycleV2 × Result LifecycleError (List SignedOptimizationResponse)
seal now l =
    if ltb now l.task.public.deadline_unix_ms
    then (l, err seal_before_deadline)
    else if is_revealed l.phase
    then (l, err already_revealed)
    else (record l { phase = sealed }, ok (values l.submissions))

pub reveal : ℕ → TaskLifecycleV2 → TaskLifecycleV2 × Result LifecycleError TaskRevealV2
reveal now l =
    if ltb now l.task.public.deadline_unix_ms
    then (l, err reveal_before_deadline)
    else if is_open l.phase
    then (l, err submissions_not_sealed)
    else (record l { phase = revealed }, ok l.task.reveal)

pub sealed_bundles : TaskLifecycleV2 → Result LifecycleError (List OptimizationBundle)
sealed_bundles l =
    if is_open l.phase
    then err submissions_not_sealed
    else ok (map (λ r. r.artifact) (values l.submissions))

-- A call of one of the methods that change the state.
pub data Call : Type 0 where
  call_submit : Attempt → Call
  call_seal : ℕ → Call
  call_reveal : ℕ → Call

-- `max_clock_skew_ms` has its default.
abbrev pub submitted : Attempt → Attempt
submitted a = record a { max_clock_skew_ms = 5000 }

module _ (sha256 : List ℕ → String) (verify : String → List ℕ → List ℕ → Bool)
    (S : ResponseReplayStore) where
  open S use {Store}

  abbrev pub State : Type 0
  State = TaskLifecycleV2 × Store

  -- What follows the verification: the response is stored if it was verified.
  pub store_verified :
      Attempt
      → TaskLifecycleV2
      → Store × Result VerificationError OptimizationBundle
      → State × Result LifecycleError (Unit {0})
  store_verified a l (s, err e) = ((l, s), err (verification e))
  store_verified a l (s, ok b) =
      ((record l { submissions = insert a.response.request_id a.response l.submissions }, s), ok tt)

  pub submit_verified : Attempt → State → State × Result LifecycleError (Unit {0})
  unfolding store_verified
  submit_verified a (l, s) = elim (refusal l a) [
    | err e ↦ ((l, s), err e)
    | ok _ ↦ store_verified a l (verify_signed_response sha256 verify S (submitted a) s)
  ]

  pub step : Call → State → State
  step (call_submit a) s = (submit_verified a s).0
  step (call_seal now) (l, s) = ((seal now l).0, s)
  step (call_reveal now) (l, s) = ((reveal now l).0, s)

  pub steps : List Call → State → State
  unfolding step
  steps [] s = s
  steps (c ∷ cs) s = steps cs (step c s)
