-- ===== src/Tasks/Lifecycle/Sealed.antt =====
-- What the life of a task guarantees, over any sequence of calls.
use mathlib.Core.Path.{subst}
use mathlib.Core.List.{Mem, mem-cons_self, mem-cons_of_mem}
use planrace_subnet.Prelude.{
  ℕ, ◌≤◌, ◌<◌, ◌≡◌, refl, ap, inl, inr, String, Bool, false, List, [], ◌∷◌, Result, ok, err,
  string_eq, arith, All, Result-cases,
}
use planrace_subnet.Prelude.Dict.{Dict, values}
use planrace_subnet.Prelude.DictLaws.{values-insert}
use planrace_subnet.Models.Bundle.{OptimizationBundle}
use planrace_subnet.Models.Reveal.{TaskRevealV2}
use planrace_subnet.Models.Exchange.{SignedOptimizationResponse}
use planrace_subnet.Auth.Replay.{ResponseReplayStore}
use planrace_subnet.Auth.Verify.{VerificationError, Attempt, verify_signed_response}
use planrace_subnet.Auth.Verify.Sound.{IsAuthentic, verify_signed_response-IsAuthentic}
use planrace_subnet.Tasks.Lifecycle.{
  PrivateTaskV2, submissions_sealed, TaskLifecycleV2, start, is_open, refusal, seal, reveal,
  submitted, store_verified, submit_verified, Call, call_submit, call_seal, call_reveal, step,
  steps,
}

-- The private task is given out only from its deadline on, and only when submissions are closed.
pub reveal_ok :
    (now : ℕ) (l : TaskLifecycleV2) (r : TaskRevealV2)
    → (reveal now l).1 ≡ ok r
    → (l.task.public.deadline_unix_ms ≤ now) × (is_open l.phase ≡ false) × (r ≡ l.task.reveal)
unfolding reveal
reveal_ok now l r h = ground arith

module _ (sha256 : List ℕ → String) (verify : String → List ℕ → List ℕ → Bool)
    (S : ResponseReplayStore) where
  open S use {Store}

  -- Submissions are closed, and are these.
  pub record IsClosed (subs : Dict String SignedOptimizationResponse) (l : TaskLifecycleV2)
      : Type 0 where
    pub closed : is_open l.phase ≡ false
    pub same : l.submissions ≡ subs

  refusal_closed :
      (l : TaskLifecycleV2) (a : Attempt)
      → is_open l.phase ≡ false
      → refusal l a ≡ err submissions_sealed
  unfolding refusal
  refusal_closed l a h = rw h refl

  step-IsClosed :
      (subs : Dict String SignedOptimizationResponse) (c : Call) (l : TaskLifecycleV2) (s : Store)
      → IsClosed subs l
      → IsClosed subs (step sha256 verify S c (l, s)).0
  unfolding step submit_verified seal reveal
  step-IsClosed subs (call_submit a) l s h =
      rw (refusal_closed l a h.closed, step, submit_verified) h
  step-IsClosed subs (call_seal now) l s h = ground arith
  step-IsClosed subs (call_reveal now) l s h = ground arith

  -- Once submissions are closed they stay closed, and the submissions stay what they are, whatever
  -- calls follow.
  pub steps-IsClosed :
      (subs : Dict String SignedOptimizationResponse) (cs : List Call) (l : TaskLifecycleV2)
      (s : Store)
      → IsClosed subs l
      → IsClosed subs (steps sha256 verify S cs (l, s)).0
  unfolding steps
  steps-IsClosed subs [] l s h = h
  steps-IsClosed subs (c ∷ cs) l s h =
      steps-IsClosed subs cs (step sha256 verify S c (l, s)).0 (step sha256 verify S c (l, s)).1
        (step-IsClosed subs c l s h)

  -- One of the calls submitted the response before the deadline, and what that call was given,
  -- its metagraph and clock included, made the response an authentic answer for this task.
  pub record IsAttested (calls : List Call) (task : PrivateTaskV2) (r : SignedOptimizationResponse)
      : Type 0 where
    pub attempt : Attempt
    pub made : Mem (call_submit attempt) calls
    pub response : attempt.response ≡ r
    pub authentic : IsAuthentic sha256 verify (submitted attempt)
    pub in_time : attempt.now_unix_ms < task.public.deadline_unix_ms
    pub this_task : r.task_id ≡ task.public.task_id

  pub record IsSound (calls : List Call) (task : PrivateTaskV2) (l : TaskLifecycleV2) : Type 0 where
    pub same_task : l.task ≡ task
    pub attested : All (IsAttested calls task) (values l.submissions)

  refusal_none :
      (l : TaskLifecycleV2) (a : Attempt)
      → refusal l a ≡ ok tt
      → (a.now_unix_ms < l.task.public.deadline_unix_ms)
        × (a.response.task_id ≡ l.task.public.task_id)
  unfolding refusal
  refusal_none l a h = ground (arith, string_eq.beq_iff a.response.task_id l.task.public.task_id)

  store_verified-IsSound :
      (calls : List Call) (task : PrivateTaskV2) (a : Attempt) (l : TaskLifecycleV2) (s : Store)
      → Mem (call_submit a) calls
      → refusal l a ≡ ok tt
      → IsSound calls task l
      → (v : Store × Result VerificationError OptimizationBundle)
      → verify_signed_response sha256 verify S (submitted a) s ≡ v
      → IsSound calls task (store_verified sha256 verify S a l v).0.0
  unfolding store_verified
  store_verified-IsSound calls task a l s made passes h (s', err e) eq = h
  store_verified-IsSound calls task a l s made passes h (s', ok b) eq =
      let passed = refusal_none l a passes in
      let verified =
        verify_signed_response-IsAuthentic sha256 verify S (submitted a) s b (ap (λ v. v.1) eq) in
      record {
        same_task = h.same_task;
        attested =
            values-insert (IsAttested calls task) a.response.request_id a.response l.submissions
              (record {
                attempt = a;
                made = made;
                response = refl;
                authentic = verified.1;
                in_time =
                    subst (λ t. a.now_unix_ms < t.public.deadline_unix_ms) h.same_task passed.0;
                this_task = subst (λ t. a.response.task_id ≡ t.public.task_id) h.same_task passed.1;
              })
              h.attested;
      }

  step-IsSound :
      (calls : List Call) (task : PrivateTaskV2) (c : Call) (l : TaskLifecycleV2) (s : Store)
      → Mem c calls
      → IsSound calls task l
      → IsSound calls task (step sha256 verify S c (l, s)).0
  unfolding step submit_verified seal reveal
  step-IsSound calls task (call_submit a) l s made h = elim (Result-cases (refusal l a)) [
    | inr (e, bad) ↦ rw (bad, step, submit_verified) h
    | inl (u, good) ↦
        rw (good, step, submit_verified)
          (store_verified-IsSound calls task a l s made good h
            (verify_signed_response sha256 verify S (submitted a) s) refl)
  ]
  step-IsSound calls task (call_seal now) l s made h = ground arith
  step-IsSound calls task (call_reveal now) l s made h = ground arith

  steps_keep-IsSound :
      (calls : List Call) (task : PrivateTaskV2) (cs : List Call) (l : TaskLifecycleV2) (s : Store)
      → ((c : Call) → Mem c cs → Mem c calls)
      → IsSound calls task l
      → IsSound calls task (steps sha256 verify S cs (l, s)).0
  unfolding steps
  steps_keep-IsSound calls task [] l s among h = h
  steps_keep-IsSound calls task (c ∷ cs) l s among h =
      steps_keep-IsSound calls task cs (step sha256 verify S c (l, s)).0
        (step sha256 verify S c (l, s)).1 (λ d m. among d (mem-cons_of_mem c m))
        (step-IsSound calls task c l s (among c mem-cons_self) h)

  -- After any sequence of calls on a new task, every response that is held was submitted by one of
  -- those calls before the deadline, for this task, and is authentic as that call was given it.
  pub steps-IsSound :
      (task : PrivateTaskV2) (cs : List Call) (s : Store)
      → IsSound cs task (steps sha256 verify S cs (start task, s)).0
  unfolding start
  steps-IsSound task cs s =
      steps_keep-IsSound cs task cs (start task) s (λ c m. m)
        (record { same_task = refl; attested = tt })
