-- ===== src/Tenancy.antt =====
-- apps/web/modules/tenancy/with-tenant.ts and packages/db/transaction.ts: a transaction that logs the
-- access and then runs its body. A body that throws rolls the transaction back, so that an `err` has no
-- state with it. The row-level policies of the database are outside the source of the program: every
-- query that is modelled carries its own tenant condition.
use compliance_data_layer.Base.{[], ◌∷◌, ◌++◌, Option, Result}
use compliance_data_layer.Base.Texts.{Text}
use compliance_data_layer.Schema.{ClientData}

pub record TenantAccess : Type 0 where
  pub tenant_id : Text
  pub actor_id : Text
  pub reason : Text
  pub trace_id : Option Text

abbrev pub log_access : TenantAccess → ClientData → ClientData
log_access a db = record db {
  access_log =
      db.access_log
      ++ record {
        tenant_id = a.tenant_id;
        actor_id = a.actor_id;
        reason = a.reason;
        trace_id = a.trace_id;
      }
        ∷ [];
}

-- `BEGIN`, the body, and `COMMIT` or `ROLLBACK`
abbrev pub transaction :
    {E A : Type 0}
    → (ClientData → Result E (ClientData × A))
    → ClientData
    → Result E (ClientData × A)
transaction body db = body db

abbrev pub with_tenant_access :
    {E A : Type 0}
    → TenantAccess
    → (ClientData → Result E (ClientData × A))
    → ClientData
    → Result E (ClientData × A)
with_tenant_access a body db = transaction (λ tx. body (log_access a tx)) db
