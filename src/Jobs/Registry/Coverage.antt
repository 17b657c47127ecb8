-- ===== src/Jobs/Registry/Coverage.antt =====
-- apps/web/jobs/registry.ts: which queues have a handler.
use compliance_data_layer.Base.{◌≡◌, ◌↔◌, Bool, true, false, none, arith, any}
use compliance_data_layer.Base.Texts.{text_eq}
use compliance_data_layer.Jobs.Registry.{JobName, job_text, corpus_record, queue_spec, handlers}

abbrev pub has_handler : JobName → Bool
has_handler name = any (λ h. text_eq (job_text h) (job_text name)) handlers

-- Queue names are distinct, so that a queue is its name.
pub JobName-discrete : Discrete JobName
JobName-discrete = hlevel

-- A queue is consumed by a handler exactly when it is neither a sink nor planned for later.
pub has_handler_iff :
    (name : JobName)
    → (has_handler name ≡ true)
      ↔ (((queue_spec name).sink_only ≡ false) × ((queue_spec name).planned_for ≡ none))
unfolding job_text text_eq queue_spec
has_handler_iff corpus_record = ground arith
has_handler_iff _ = ground arith
