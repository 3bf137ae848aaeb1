-- ===== src/Tasks/Lifecycle/Tests.antt =====
-- Concrete calls on a task: a submission, the seal and the reveal.
use planrace_subnet.Prelude.{◌≤◌, ◌≡◌, refl, false, List, [], ◌∷◌}
use planrace_subnet.Auth.Replay.{SqliteStore}
use planrace_subnet.Auth.Replay.Stores.{sqlite_store}
use planrace_subnet.Auth.Samples.{sha256, verify, task, response, attempt}
use planrace_subnet.Tasks.Lifecycle.{
  PrivateTaskV2, sealed, is_open, TaskLifecycleV2, start, reveal, call_submit, call_seal,
  call_reveal, Call, steps,
}
use planrace_subnet.Tasks.Lifecycle.Sealed.{
  reveal_ok, IsClosed, steps-IsClosed, IsSound, steps-IsSound,
}

abbrev private_task : PrivateTaskV2
private_task = record {
  public = task;
  reveal = record {
    task_id = "t";
    secret_seed_hex = "0";
    salt_hex = "1";
    hidden_fixtures = [];
    hidden_fixture_merkle_root = "m";
  };
}

abbrev sealed_task : TaskLifecycleV2
sealed_task = record { task = private_task; phase = sealed; submissions = ("q", response) ∷ [] }

abbrev empty_store : SqliteStore
empty_store = record { rows = []; max_entries = 2 }

abbrev calls : List Call
calls = call_submit (attempt 5) ∷ call_seal 9 ∷ call_submit (attempt 5) ∷ call_reveal 10 ∷ []

reveal_ok_example :
    (9 ≤ 10) × (is_open sealed ≡ false) × (private_task.reveal ≡ private_task.reveal)
unfolding reveal
reveal_ok_example = reveal_ok 10 sealed_task private_task.reveal refl

steps-IsClosed_example :
    IsClosed sha256 verify sqlite_store
      (("q", response) ∷ [])
      (steps sha256 verify sqlite_store calls (sealed_task, empty_store)).0
steps-IsClosed_example =
    steps-IsClosed sha256 verify sqlite_store (("q", response) ∷ []) calls sealed_task empty_store
      (record { closed = refl; same = refl })

steps-IsSound_example :
    IsSound sha256 verify sqlite_store calls private_task
      (steps sha256 verify sqlite_store calls (start private_task, empty_store)).0
steps-IsSound_example = steps-IsSound sha256 verify sqlite_store private_task calls empty_store
