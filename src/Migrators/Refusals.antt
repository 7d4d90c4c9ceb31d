-- ===== src/Migrators/Refusals.antt =====
-- What ends a migration whose client only fails with answers of the service (types.go, lines 29 to 328).
use swf4go.Prelude.{◌≡◌, Option, none, some}
use swf4go.Go.{response, Panic, of_error, Exec, panics}
use swf4go.Protocol.ErrorResponse.{ErrorResponse}
use swf4go.Protocol.Admin.{
  DeprecateActivityType, DeprecateWorkflowType, DeprecateDomain, RegisterActivityType,
  RegisterDomain, RegisterWorkflowType,
}
use swf4go.Protocol.Info.{
  DescribeActivityTypeRequest, DescribeDomainRequest, DescribeWorkflowTypeRequest,
}
use swf4go.Protocol.Kinesis.{CreateStream, DescribeStreamRequest}
use swf4go.Migrators.Client.{MigrationClient}
use swf4go.Migrators.Ensuring.{each}
use swf4go.Migrators.{
  DomainMigrator, WorkflowTypeMigrator, ActivityTypeMigrator, StreamMigrator, TypesMigrator,
  deprecate_domain, register_domain, deprecate_workflow_type, register_workflow_type,
  deprecate_activity_type, register_activity_type, create_stream, migrate_domains,
  migrate_workflow_types, migrate_activity_types, migrate_streams, migrate_if, migrate,
}
use swf4go.Migrators.Ensuring.Refusals.{
  ChangeAnswers, DescribeAnswers, PanicsAnswer, returns-PanicsAnswer, bind-PanicsAnswer,
  each-PanicsAnswer, ensure_deprecated-PanicsAnswer, ensure_registered-PanicsAnswer,
  ensure_created-PanicsAnswer,
}

-- A client whose operations fail with answers of the service only.
pub record AnswersOnly {ℓ} {W : Type ℓ} (client : MigrationClient W) : Type ℓ where
  pub register_activity_type :
      (d : RegisterActivityType) → ChangeAnswers (client.register_activity_type d)
  pub deprecate_activity_type :
      (d : DeprecateActivityType) → ChangeAnswers (client.deprecate_activity_type d)
  pub register_workflow_type :
      (d : RegisterWorkflowType) → ChangeAnswers (client.register_workflow_type d)
  pub deprecate_workflow_type :
      (d : DeprecateWorkflowType) → ChangeAnswers (client.deprecate_workflow_type d)
  pub register_domain : (d : RegisterDomain) → ChangeAnswers (client.register_domain d)
  pub deprecate_domain : (d : DeprecateDomain) → ChangeAnswers (client.deprecate_domain d)
  pub describe_activity_type :
      (d : DescribeActivityTypeRequest) → DescribeAnswers (client.describe_activity_type d)
  pub describe_domain : (d : DescribeDomainRequest) → DescribeAnswers (client.describe_domain d)
  pub describe_workflow_type :
      (d : DescribeWorkflowTypeRequest) → DescribeAnswers (client.describe_workflow_type d)
  pub create_stream : (d : CreateStream) → ChangeAnswers (client.create_stream d)
  pub describe_stream : (d : DescribeStreamRequest) → DescribeAnswers (client.describe_stream d)

migrate_if-PanicsAnswer {ℓ} :
    {W : Type ℓ} (client : MigrationClient W) {A : Type 0} (run : A → W → Exec W)
    → ((a : A) (w : W) → PanicsAnswer (run a w))
    → (o : Option A) (w : W) → PanicsAnswer (migrate_if client run o w)
unfolding migrate_if
migrate_if-PanicsAnswer client run ha none w = returns-PanicsAnswer w
migrate_if-PanicsAnswer client run ha (some m) w = ha m w

module _ {ℓ} {W : Type ℓ} (client : MigrationClient W) (answers : AnswersOnly client) where
  migrate_domains-PanicsAnswer :
      (m : DomainMigrator) (w : W) → PanicsAnswer (migrate_domains client m w)
  unfolding migrate_domains deprecate_domain register_domain
  migrate_domains-PanicsAnswer m w =
      bind-PanicsAnswer (each (deprecate_domain client) m.deprecated_domains w) _
        (each-PanicsAnswer _
          (λ d.
            ensure_deprecated-PanicsAnswer _ _ _ (answers.describe_domain _)
              (answers.deprecate_domain d))
          m.deprecated_domains w)
        (each-PanicsAnswer _
          (λ d.
            ensure_registered-PanicsAnswer _ _ _ (answers.describe_domain _)
              (answers.register_domain d))
          m.registered_domains)

  migrate_workflow_types-PanicsAnswer :
      (m : WorkflowTypeMigrator) (w : W) → PanicsAnswer (migrate_workflow_types client m w)
  unfolding migrate_workflow_types deprecate_workflow_type register_workflow_type
  migrate_workflow_types-PanicsAnswer m w =
      bind-PanicsAnswer (each (deprecate_workflow_type client) m.deprecated_workflow_types w) _
        (each-PanicsAnswer _
          (λ d.
            ensure_deprecated-PanicsAnswer _ _ _ (answers.describe_workflow_type _)
              (answers.deprecate_workflow_type d))
          m.deprecated_workflow_types w)
        (each-PanicsAnswer _
          (λ d.
            ensure_registered-PanicsAnswer _ _ _ (answers.describe_workflow_type _)
              (answers.register_workflow_type d))
          m.registered_workflow_types)

  migrate_activity_types-PanicsAnswer :
      (m : ActivityTypeMigrator) (w : W) → PanicsAnswer (migrate_activity_types client m w)
  unfolding migrate_activity_types deprecate_activity_type register_activity_type
  migrate_activity_types-PanicsAnswer m w =
      bind-PanicsAnswer (each (deprecate_activity_type client) m.deprecated_activity_types w) _
        (each-PanicsAnswer _
          (λ d.
            ensure_deprecated-PanicsAnswer _ _ _ (answers.describe_activity_type _)
              (answers.deprecate_activity_type d))
          m.deprecated_activity_types w)
        (each-PanicsAnswer _
          (λ d.
            ensure_registered-PanicsAnswer _ _ _ (answers.describe_activity_type _)
              (answers.register_activity_type d))
          m.registered_activity_types)

  migrate_streams-PanicsAnswer :
      (m : StreamMigrator) (w : W) → PanicsAnswer (migrate_streams client m w)
  unfolding migrate_streams create_stream
  migrate_streams-PanicsAnswer m =
      each-PanicsAnswer _
        (λ d.
          ensure_created-PanicsAnswer _ (λ _. "") _ (answers.describe_stream _)
            (answers.create_stream d))
        m.streams

  pub migrate-PanicsAnswer :
      (t : TypesMigrator) (w : W) (p : Panic)
      → migrate client t w ≡ panics p
      → (r : ErrorResponse) × (p ≡ of_error (response r))
  unfolding migrate
  migrate-PanicsAnswer t w =
      bind-PanicsAnswer (migrate_if client (migrate_domains client) t.domain_migrator w) _
        (migrate_if-PanicsAnswer client _ (migrate_domains-PanicsAnswer) t.domain_migrator w)
        (λ w₁.
          bind-PanicsAnswer
            (migrate_if client (migrate_workflow_types client) t.workflow_type_migrator w₁) _
            (migrate_if-PanicsAnswer client _ migrate_workflow_types-PanicsAnswer
              t.workflow_type_migrator w₁)
            (λ w₂.
              bind-PanicsAnswer
                (migrate_if client (migrate_activity_types client) t.activity_type_migrator w₂) _
                (migrate_if-PanicsAnswer client _ migrate_activity_types-PanicsAnswer
                  t.activity_type_migrator w₂)
                (migrate_if-PanicsAnswer client _ migrate_streams-PanicsAnswer t.stream_migrator)))
