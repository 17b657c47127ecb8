-- ===== src/Mapping/Profile/Confirmation.antt =====
-- apps/web/modules/mapping/profile.ts: what confirmProfile leaves to applyMapping.
use compliance_data_layer.Base.{ℕ, none, some}
use compliance_data_layer.Base.Texts.{Text}
use compliance_data_layer.Schema.{MappingProfile}

-- The row with its confirmation taken off.
abbrev pub unsigned : MappingProfile → MappingProfile
unsigned r = record r { confirmed_by = none; confirmed_at = none }

abbrev pub signed : Text → ℕ → MappingProfile → MappingProfile
signed by now r = record r { confirmed_by = some by; confirmed_at = some now }
