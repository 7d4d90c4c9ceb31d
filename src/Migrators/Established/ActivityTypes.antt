-- ===== src/Migrators/Established/ActivityTypes.antt =====
-- The migrator of activity types (types.go, lines 196 to 267).
use swf4go.Prelude.{String, ◌≡◌, Option}
use swf4go.Go.{returns}
use swf4go.Protocol.ErrorResponse.{status_registered, status_deprecated}
use swf4go.Protocol.Admin.{DeprecateActivityType, RegisterActivityType}
use swf4go.Protocol.Info.{DescribeActivityTypeResponse}
use swf4go.Migrators.Client.{MigrationClient}
use swf4go.Migrators.Ensuring.Results.{
  Describes, ensure_deprecated-Ensures, ensure_registered-Ensures,
}
use swf4go.Migrators.Established.{Sets, AllAt, Disjoint, both-AllAt, decide_text, decide_pair}
use swf4go.Migrators.{
  ActivityTypeMigrator, deprecate_activity_type, register_activity_type, migrate_activity_types,
}

abbrev pub activity_type_key : DeprecateActivityType → String × (String × String)
activity_type_key d = (d.domain, (d.activity_type.name, d.activity_type.version))

abbrev pub new_activity_type_key : RegisterActivityType → String × (String × String)
new_activity_type_key r = (r.domain, (r.name, r.version))

module _ {W : Type 0} (client : MigrationClient W)
    (status : W → String × (String × String) → Option String) where
  -- The client answers for a service that keeps a status for each key.
  pub record ServesActivityTypes : Type 0 where
    pub describes :
        Describes status
          (λ k.
            client.describe_activity_type
              (record { domain = k.0; activity_type = record { name = k.1.0; version = k.1.1 } }))
          (λ (d : DescribeActivityTypeResponse). d.type_info.status)
    pub deprecates : Sets status client.deprecate_activity_type activity_type_key status_deprecated
    pub registers :
        Sets status client.register_activity_type new_activity_type_key status_registered

  -- A migration of activity types that returns, for such a service and with nothing both deprecated and
  -- registered, leaves what is to be deprecated DEPRECATED and what is to be registered REGISTERED, and
  -- migrating again changes nothing.
  pub migrate_activity_types-AllAt :
      ServesActivityTypes
      → (m : ActivityTypeMigrator) (w w' : W)
      → Disjoint activity_type_key new_activity_type_key m.deprecated_activity_types
          m.registered_activity_types
      → migrate_activity_types client m w ≡ returns w'
      → AllAt status activity_type_key status_deprecated w' m.deprecated_activity_types
        × AllAt status new_activity_type_key status_registered w' m.registered_activity_types
        × (migrate_activity_types client m w' ≡ returns w')
  unfolding migrate_activity_types deprecate_activity_type register_activity_type
  migrate_activity_types-AllAt s m w w' apart h =
      both-AllAt status (decide_pair decide_text (decide_pair decide_text decide_text)) _
        client.deprecate_activity_type activity_type_key
        (ensure_deprecated-Ensures status _ _ s.describes client.deprecate_activity_type
          activity_type_key)
        s.deprecates _ client.register_activity_type new_activity_type_key
        (ensure_registered-Ensures status _ _ s.describes client.register_activity_type
          new_activity_type_key)
        s.registers m.deprecated_activity_types m.registered_activity_types w w' apart h
