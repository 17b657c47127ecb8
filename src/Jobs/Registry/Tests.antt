-- ===== src/Jobs/Registry/Tests.antt =====
-- apps/web/jobs/registry.ts on the queue of the corpus.
use compliance_data_layer.Base.{◌≡◌, ◌↔◌, true, false, none}
use compliance_data_layer.Jobs.Registry.{corpus_record, queue_spec}
use compliance_data_layer.Jobs.Registry.Coverage.{has_handler, has_handler_iff}

has_handler_iff_example : (has_handler corpus_record ≡ true) ↔ (
    ((queue_spec corpus_record).sink_only ≡ false)
    × ((queue_spec corpus_record).planned_for ≡ none))
has_handler_iff_example = has_handler_iff corpus_record
