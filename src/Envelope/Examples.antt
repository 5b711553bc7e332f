-- ===== src/Envelope/Examples.antt =====
-- One envelope, and the theorems about src/envelope at it.
use aros_kernel.Prelude.{◌≡◌, ◌≢◌, refl, none, []}
use aros_kernel.Prelude.Float.{nan, below_zero, above_one}
use aros_kernel.Prelude.Result.{ok}
use aros_kernel.Envelope.{
  green, p1_normal, TaskEnvelope, default_budget, default_checkpoint, validate,
}
use aros_kernel.Envelope.Validation.{IsWellFormed, validate_iff}

abbrev plain : TaskEnvelope
plain = record {
  task_id = "t";
  parent_dag_id = "d";
  task_spec = record {
    title = "";
    description = "";
    working_dir = none;
    env_vars = [];
    max_retries = 0;
  };
  security_zone = green;
  priority = p1_normal;
  resource_budget = default_budget;
  tool_endpoints = [];
  checkpoint_policy = default_checkpoint;
  created_at = "";
  envelope_version = 1;
}

-- The same without a usable threshold.
abbrev vague : TaskEnvelope
vague = record plain { resource_budget = record default_budget { budget_warning_threshold = nan } }

plain_accepted : validate plain ≡ ok tt
unfolding validate below_zero above_one
plain_accepted = refl

validate_iff_example : IsWellFormed plain
validate_iff_example = (validate_iff plain).0 plain_accepted

named : plain.task_id ≢ ""
named e = cc

owned : plain.parent_dag_id ≢ ""
owned e = cc
