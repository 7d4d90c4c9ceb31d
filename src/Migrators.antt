-- ===== src/Migrators.antt =====
-- The migrators, which register and deprecate what the service lacks (types.go). `W` is the state of the
-- service: the client's operations, which are parameters, take it and leave it changed. A panic ends
-- the migration, with the service as it is then.
pub mod Client
pub mod Ensuring
pub mod Established
pub mod Refusals
mod Samples
mod Tests
use swf4go.Prelude.{
  String, Bool, true, false, Option, none, some, List, [], ◌∷◌, ◌==◌, if◌then◌else◌,
}
use swf4go.Go.{
  GoError, response, text, Result, ok, err, Panic, of_error, Exec, returns, panics, ◌>>=◌,
}
use swf4go.Protocol.ErrorResponse.{
  ErrorResponse, status_registered, status_deprecated, error_type_unknown_resource_fault,
  error_type_stream_not_found,
}
use swf4go.Protocol.Admin.{
  DeprecateActivityType, DeprecateWorkflowType, DeprecateDomain, RegisterActivityType,
  RegisterDomain, RegisterWorkflowType,
}
use swf4go.Protocol.Kinesis.{CreateStream}
use Client.{MigrationClient}
use Ensuring.{ensure_deprecated, ensure_registered, ensure_created, each}

pub record DomainMigrator : Type 0 where
  pub registered_domains : List RegisterDomain
  pub deprecated_domains : List DeprecateDomain

pub record WorkflowTypeMigrator : Type 0 where
  pub registered_workflow_types : List RegisterWorkflowType
  pub deprecated_workflow_types : List DeprecateWorkflowType

pub record ActivityTypeMigrator : Type 0 where
  pub registered_activity_types : List RegisterActivityType
  pub deprecated_activity_types : List DeprecateActivityType

pub record StreamMigrator : Type 0 where
  pub streams : List CreateStream

-- `none` is a nil pointer.
pub record TypesMigrator : Type 0 where
  pub domain_migrator : Option DomainMigrator
  pub workflow_type_migrator : Option WorkflowTypeMigrator
  pub activity_type_migrator : Option ActivityTypeMigrator
  pub stream_migrator : Option StreamMigrator

abbrev pub new_types_migrator :
    List RegisterDomain
    → List DeprecateDomain
    → List RegisterWorkflowType
    → List DeprecateWorkflowType
    → List RegisterActivityType
    → List DeprecateActivityType
    → TypesMigrator
new_types_migrator domains old_domains workflows old_workflows activities old_activities = record {
  domain_migrator =
      some (record { registered_domains = domains; deprecated_domains = old_domains });
  workflow_type_migrator =
      some (record {
        registered_workflow_types = workflows;
        deprecated_workflow_types = old_workflows;
      });
  activity_type_migrator = some (record {
    registered_activity_types = activities;
    deprecated_activity_types = old_activities;
  });
  stream_migrator = none;
}

module _ {ℓ} {W : Type ℓ} (client : MigrationClient W) where
  pub deprecate_domain : DeprecateDomain → W → Exec W
  unfolding ensure_deprecated
  deprecate_domain dd =
      ensure_deprecated (client.describe_domain (record { name = dd.name }))
        (λ d. d.domain_info.status) (client.deprecate_domain dd)

  pub register_domain : RegisterDomain → W → Exec W
  unfolding ensure_registered
  register_domain rd =
      ensure_registered (client.describe_domain (record { name = rd.name }))
        (λ d. d.domain_info.status) (client.register_domain rd)

  unfoldable pub migrate_domains : DomainMigrator → W → Exec W
  unfolding deprecate_domain register_domain each
  migrate_domains m w = do
    w' ← each deprecate_domain m.deprecated_domains w
    each register_domain m.registered_domains w'

  pub deprecate_workflow_type : DeprecateWorkflowType → W → Exec W
  unfolding ensure_deprecated
  deprecate_workflow_type dd =
      ensure_deprecated
        (client.describe_workflow_type (record {
          domain = dd.domain;
          workflow_type = record {
            name = dd.workflow_type.name;
            version = dd.workflow_type.version;
          };
        }))
        (λ d. d.type_info.status) (client.deprecate_workflow_type dd)

  pub register_workflow_type : RegisterWorkflowType → W → Exec W
  unfolding ensure_registered
  register_workflow_type rd =
      ensure_registered
        (client.describe_workflow_type (record {
          domain = rd.domain;
          workflow_type = record { name = rd.name; version = rd.version };
        }))
        (λ d. d.type_info.status) (client.register_workflow_type rd)

  unfoldable pub migrate_workflow_types : WorkflowTypeMigrator → W → Exec W
  unfolding deprecate_workflow_type register_workflow_type each
  migrate_workflow_types m w = do
    w' ← each deprecate_workflow_type m.deprecated_workflow_types w
    each register_workflow_type m.registered_workflow_types w'

  pub deprecate_activity_type : DeprecateActivityType → W → Exec W
  unfolding ensure_deprecated
  deprecate_activity_type dd =
      ensure_deprecated
        (client.describe_activity_type (record {
          domain = dd.domain;
          activity_type = record {
            name = dd.activity_type.name;
            version = dd.activity_type.version;
          };
        }))
        (λ d. d.type_info.status) (client.deprecate_activity_type dd)

  pub register_activity_type : RegisterActivityType → W → Exec W
  unfolding ensure_registered
  register_activity_type rd =
      ensure_registered
        (client.describe_activity_type (record {
          domain = rd.domain;
          activity_type = record { name = rd.name; version = rd.version };
        }))
        (λ d. d.type_info.status) (client.register_activity_type rd)

  unfoldable pub migrate_activity_types : ActivityTypeMigrator → W → Exec W
  unfolding deprecate_activity_type register_activity_type each
  migrate_activity_types m w = do
    w' ← each deprecate_activity_type m.deprecated_activity_types w
    each register_activity_type m.registered_activity_types w'

  pub create_stream : CreateStream → W → Exec W
  unfolding ensure_created
  create_stream st =
      ensure_created
        (client.describe_stream
          (record { exclusive_start_shard_id = none; limit = none; stream_name = st.stream_name }))
        (client.create_stream st)

  unfoldable pub migrate_streams : StreamMigrator → W → Exec W
  unfolding create_stream each
  migrate_streams m w = each create_stream m.streams w

  -- A migrator that is nil is replaced by an empty one.
  migrate_if : {A : Type 0} → (A → W → Exec W) → Option A → W → Exec W
  migrate_if run none w = returns w
  migrate_if run (some m) w = run m w

  unfoldable pub migrate : TypesMigrator → W → Exec W
  unfolding migrate_domains migrate_workflow_types migrate_activity_types migrate_streams migrate_if
  migrate t w = do
    w₁ ← migrate_if migrate_domains t.domain_migrator w
    w₂ ← migrate_if migrate_workflow_types t.workflow_type_migrator w₁
    w₃ ← migrate_if migrate_activity_types t.activity_type_migrator w₂
    migrate_if migrate_streams t.stream_migrator w₃
