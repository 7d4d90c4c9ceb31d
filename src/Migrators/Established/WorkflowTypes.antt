-- ===== src/Migrators/Established/WorkflowTypes.antt =====
-- The migrator of workflow types (types.go, lines 123 to 194).
use swf4go.Prelude.{String, ◌≡◌, Option}
use swf4go.Go.{returns}
use swf4go.Protocol.ErrorResponse.{status_registered, status_deprecated}
use swf4go.Protocol.Admin.{DeprecateWorkflowType, RegisterWorkflowType}
use swf4go.Protocol.Info.{DescribeWorkflowTypeResponse}
use swf4go.Migrators.Client.{MigrationClient}
use swf4go.Migrators.Ensuring.Results.{
  Describes, ensure_deprecated-Ensures, ensure_registered-Ensures,
}
use swf4go.Migrators.Established.{Sets, AllAt, Disjoint, both-AllAt, decide_text, decide_pair}
use swf4go.Migrators.{
  WorkflowTypeMigrator, deprecate_workflow_type, register_workflow_type, migrate_workflow_types,
}

abbrev pub workflow_type_key : DeprecateWorkflowType → String × (String × String)
workflow_type_key d = (d.domain, (d.workflow_type.name, d.workflow_type.version))

abbrev pub new_workflow_type_key : RegisterWorkflowType → String × (String × String)
new_workflow_type_key r = (r.domain, (r.name, r.version))

module _ {W : Type 0} (client : MigrationClient W)
    (status : W → String × (String × String) → Option String) where
  -- The client answers for a service that keeps a status for each key.
  pub record ServesWorkflowTypes : Type 0 where
    pub describes :
        Describes status
          (λ k.
            client.describe_workflow_type
              (record { domain = k.0; workflow_type = record { name = k.1.0; version = k.1.1 } }))
          (λ (d : DescribeWorkflowTypeResponse). d.type_info.status)
    pub deprecates : Sets status client.deprecate_workflow_type workflow_type_key status_deprecated
    pub registers :
        Sets status client.register_workflow_type new_workflow_type_key status_registered

  -- A migration of workflow types that returns, for such a service and with nothing both deprecated and
  -- registered, leaves what is to be deprecated DEPRECATED and what is to be registered REGISTERED, and
  -- migrating again changes nothing.
  pub migrate_workflow_types-AllAt :
      ServesWorkflowTypes
      → (m : WorkflowTypeMigrator) (w w' : W)
      → Disjoint workflow_type_key new_workflow_type_key m.deprecated_workflow_types
          m.registered_workflow_types
      → migrate_workflow_types client m w ≡ returns w'
      → AllAt status workflow_type_key status_deprecated w' m.deprecated_workflow_types
        × AllAt status new_workflow_type_key status_registered w' m.registered_workflow_types
        × (migrate_workflow_types client m w' ≡ returns w')
  unfolding migrate_workflow_types deprecate_workflow_type register_workflow_type
  migrate_workflow_types-AllAt s m w w' apart h =
      both-AllAt status (decide_pair decide_text (decide_pair decide_text decide_text)) _
        client.deprecate_workflow_type workflow_type_key
        (ensure_deprecated-Ensures status _ _ s.describes client.deprecate_workflow_type
          workflow_type_key)
        s.deprecates _ client.register_workflow_type new_workflow_type_key
        (ensure_registered-Ensures status _ _ s.describes client.register_workflow_type
          new_workflow_type_key)
        s.registers m.deprecated_workflow_types m.registered_workflow_types w w' apart h
