-- ===== src/Supervisor/Triggers/Examples.antt =====
-- A handler that serves triggers, and the theorems about src/supervisor/handler.rs at it.
use aros_kernel.Prelude.{
  ℕ, String, ◌≡◌, ◌≢◌, ◌⊎◌, refl, true, false, Option, none, some, List, [], ◌∷◌, arith, string_eq,
  beq_self,
}
use aros_kernel.Prelude.Float.{finite}
use aros_kernel.Prelude.Map.{lookup, insert, remove, keys, contains_key, lookup-insert}
use aros_kernel.Prelude.Result.{ok, err}
use aros_kernel.Dispatch.Rpc.{RpcMethod, task_submit, task_complete, loop_trigger, ping}
use aros_kernel.Dispatch.Rpc
use aros_kernel.Dispatch.Contracts.{LoopTrigger, meta_cycle_request}
use aros_kernel.Store.Acl.{StateStore}
use aros_kernel.Supervisor.Process.{id_eq, kernel, loop0_meta, running}
use aros_kernel.Supervisor.Kernel.Update.{ChildIn}
use aros_kernel.Supervisor.Examples.{
  watched, texts, texts-Decodes, idle_governor, idle_governor-IsWithin, request,
}
use aros_kernel.Supervisor.Triggers.{
  Kernel, TriggerJson, source_not_running, target_not_running, route, complete_cycle,
  handle_loop_trigger,
}
use aros_kernel.Supervisor.Triggers.Routing.{WellKeyed, checked, handle_loop_trigger_outcomes}
use aros_kernel.Supervisor.Triggers.Cycle.{Remembers, head_key, Ended, complete_cycle_outcomes}
use aros_kernel.Supervisor.Triggers.History.{serve, numbers, Ascending, serve-Ascending}
use aros_kernel.Supervisor.Triggers.Registry.{Idle, serve-Idle}

abbrev Bytes : Type 0
Bytes = List (String × List ℕ)

bytes : StateStore Bytes
bytes = record {
  put = λ key value s. (ok tt, insert key value s);
  get = λ key s. ok (lookup key s);
  delete = λ key s. (ok tt, remove key s);
  list_keys = λ prefix s. ok (keys s);
  exists = λ key s. ok (contains_key key s);
}

bytes-Remembers : Remembers bytes
unfolding bytes
bytes-Remembers = record {
  read_back = λ key value s e. ground (arith, lookup-insert key key value s, beq_self key);
  others = λ key other value s apart.
      ground (arith, lookup-insert key other value s, string_eq.beq_iff key other);
  failed = λ key other value s e h. absurd (ground arith);
}

abbrev Value : Type 0
Value = List (String × String)

abbrev trigger : LoopTrigger Value
trigger = record {
  seq = 4;
  source = loop0_meta;
  target = kernel;
  kind = meta_cycle_request "schedule";
  trace_parent = none;
}

-- Every value is read as the same trigger.
abbrev wire : TriggerJson Value
wire = record {
  json = texts;
  encode_trigger = λ t. ok request;
  decode_trigger = λ v. ok trigger;
  drift_bytes = λ drift. 48 ∷ [];
  text_bytes = λ text. 99 ∷ [];
}

abbrev shared : Kernel Bytes
shared = record {
  supervisor = watched;
  tasks = record { governor = idle_governor; task_registry = [] };
  state_store = [];
  trigger_seq = 1;
}

watched-WellKeyed : WellKeyed watched
unfolding lookup
watched-WellKeyed = record { unique = ground arith; named = λ id h here. ground arith }

handle_loop_trigger_outcomes_example :
    (¬ (ChildIn running loop0_meta watched)
      × (handle_loop_trigger bytes wire 9 (some []) shared
          ≡ (err (source_not_running loop0_meta), checked 9 shared)))
    ⊎ (ChildIn running loop0_meta watched
        × (kernel ≢ kernel)
        × ¬ (ChildIn running kernel watched)
        × (handle_loop_trigger bytes wire 9 (some []) shared
            ≡ (err (target_not_running kernel), checked 9 shared)))
    ⊎ (ChildIn running loop0_meta watched
        × ((kernel ≡ kernel) ⊎ ChildIn running kernel watched)
        × (handle_loop_trigger bytes wire 9 (some []) shared
            ≡ route bytes wire trigger (checked 9 shared)))
handle_loop_trigger_outcomes_example =
    handle_loop_trigger_outcomes bytes wire 9 [] trigger shared refl watched-WellKeyed

complete_cycle_outcomes_example :
    Ended bytes wire bytes-Remembers "cycle-1" true
      (finite false 0 0)
      (bytes.get head_key [])
      (complete_cycle bytes wire "cycle-1" true (finite false 0 0) shared)
complete_cycle_outcomes_example =
    complete_cycle_outcomes bytes wire bytes-Remembers "cycle-1" true (finite false 0 0) shared

abbrev requests : List (ℕ × RpcMethod × Option Value)
requests =
    (1, loop_trigger, some [])
    ∷ (2, task_submit, some [])
    ∷ (3, Rpc.task_cancel, some request)
    ∷ (4, task_complete, some request)
    ∷ (5, loop_trigger, some [])
    ∷ []

serve-Ascending_example :
    Ascending bytes wire 1 (numbers bytes wire (serve bytes wire requests shared).0)
serve-Ascending_example = serve-Ascending bytes wire requests shared (omega arith)

serve-Idle_example : Idle (serve bytes wire requests shared).1.tasks
serve-Idle_example =
    serve-Idle bytes wire texts-Decodes requests shared (omega arith) (refl, idle_governor-IsWithin)
