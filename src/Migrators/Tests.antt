-- ===== src/Migrators/Tests.antt =====
-- The sample service, migrated.
use swf4go.Prelude.{◌≡◌, ◌≢◌, refl, arith, eq_iff, [], ◌∷◌}
use swf4go.Go.{returns}
use swf4go.Protocol.ErrorResponse.{status_registered, status_deprecated}
use swf4go.Protocol.Admin.{DeprecateWorkflowType, DeprecateActivityType}
use swf4go.Migrators.{
  DomainMigrator, WorkflowTypeMigrator, ActivityTypeMigrator, migrate_domains,
  migrate_workflow_types, migrate_activity_types,
}
use swf4go.Migrators.Established.{AllAt}
use swf4go.Migrators.Established.WorkflowTypes.{
  workflow_type_key, new_workflow_type_key, migrate_workflow_types-AllAt,
}
use swf4go.Migrators.Established.ActivityTypes.{
  activity_type_key, new_activity_type_key, migrate_activity_types-AllAt,
}
use swf4go.Migrators.Established.Domains.{domain_key, new_domain_key, migrate_domains-AllAt}
use swf4go.Migrators.Samples.Statuses.{find_status}
use swf4go.Migrators.Samples.{
  Service, answer, service, domain_status, workflow_status, activity_status, service-ServesDomains,
  service-ServesWorkflowTypes, service-ServesActivityTypes,
}

abbrev empty : Service
empty = record { domains = []; workflows = []; activities = [] }

abbrev domains : DomainMigrator
domains = record {
  registered_domains =
      record { description = ""; name = "new"; workflow_execution_retention_period_in_days = "1" }
      ∷ [];
  deprecated_domains = record { name = "old" } ∷ [];
}

abbrev migrated : Service
migrated = record empty { domains = ("new", status_registered) ∷ ("old", status_deprecated) ∷ [] }

old_new : domain_key (record { name = "old" }) ≢ "new"
old_new e = ground (arith, eq_iff "old" "new")

migrated_once : migrate_domains service domains empty ≡ returns migrated
unfolding migrate_domains service find_status answer
migrated_once = refl

migrate_domains-AllAt_example :
    AllAt domain_status domain_key status_deprecated migrated domains.deprecated_domains
    × AllAt domain_status new_domain_key status_registered migrated domains.registered_domains
    × (migrate_domains service domains migrated ≡ returns migrated)
migrate_domains-AllAt_example =
    migrate_domains-AllAt service domain_status service-ServesDomains domains empty migrated
      ((old_new, tt), tt) migrated_once

abbrev old_workflow : DeprecateWorkflowType
old_workflow = record { domain = "new"; workflow_type = record { name = "a"; version = "1" } }

abbrev workflows : WorkflowTypeMigrator
workflows = record { registered_workflow_types = []; deprecated_workflow_types = old_workflow ∷ [] }

abbrev migrated_workflows : Service
migrated_workflows = record empty { workflows = (("new", ("a", "1")), status_deprecated) ∷ [] }

workflows_once : migrate_workflow_types service workflows empty ≡ returns migrated_workflows
unfolding migrate_workflow_types service find_status answer
workflows_once = refl

migrate_workflow_types-AllAt_example :
    AllAt workflow_status workflow_type_key status_deprecated migrated_workflows (old_workflow ∷ [])
    × AllAt workflow_status new_workflow_type_key status_registered migrated_workflows []
    × (migrate_workflow_types service workflows migrated_workflows ≡ returns migrated_workflows)
migrate_workflow_types-AllAt_example =
    migrate_workflow_types-AllAt service workflow_status service-ServesWorkflowTypes workflows empty
      migrated_workflows (tt, tt) workflows_once

abbrev old_activity : DeprecateActivityType
old_activity = record { domain = "new"; activity_type = record { name = "a"; version = "1" } }

abbrev activities : ActivityTypeMigrator
activities = record {
  registered_activity_types = [];
  deprecated_activity_types = old_activity ∷ [];
}

abbrev migrated_activities : Service
migrated_activities = record empty { activities = (("new", ("a", "1")), status_deprecated) ∷ [] }

activities_once : migrate_activity_types service activities empty ≡ returns migrated_activities
unfolding migrate_activity_types service find_status answer
activities_once = refl

migrate_activity_types-AllAt_example :
    AllAt activity_status activity_type_key status_deprecated migrated_activities
      (old_activity ∷ [])
    × AllAt activity_status new_activity_type_key status_registered migrated_activities []
    × (migrate_activity_types service activities migrated_activities ≡ returns migrated_activities)
migrate_activity_types-AllAt_example =
    migrate_activity_types-AllAt service activity_status service-ServesActivityTypes activities
      empty migrated_activities (tt, tt) activities_once
