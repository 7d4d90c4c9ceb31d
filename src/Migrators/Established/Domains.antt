-- ===== src/Migrators/Established/Domains.antt =====
-- The migrator of domains (types.go, lines 50 to 121).
use swf4go.Prelude.{String, ◌≡◌, Option}
use swf4go.Go.{returns}
use swf4go.Protocol.ErrorResponse.{status_registered, status_deprecated}
use swf4go.Protocol.Admin.{DeprecateDomain, RegisterDomain}
use swf4go.Protocol.Info.{DescribeDomainResponse}
use swf4go.Migrators.Client.{MigrationClient}
use swf4go.Migrators.Ensuring.Results.{
  Describes, ensure_deprecated-Ensures, ensure_registered-Ensures,
}
use swf4go.Migrators.Established.{Sets, AllAt, Disjoint, both-AllAt, decide_text}
use swf4go.Migrators.{DomainMigrator, deprecate_domain, register_domain, migrate_domains}

abbrev pub domain_key : DeprecateDomain → String
domain_key d = d.name

abbrev pub new_domain_key : RegisterDomain → String
new_domain_key r = r.name

module _ {W : Type 0} (client : MigrationClient W) (status : W → String → Option String) where
  -- The client answers for a service that keeps a status for each key.
  pub record ServesDomains : Type 0 where
    pub describes :
        Describes status
          (λ k. client.describe_domain (record { name = k }))
          (λ (d : DescribeDomainResponse). d.domain_info.status)
    pub deprecates : Sets status client.deprecate_domain domain_key status_deprecated
    pub registers : Sets status client.register_domain new_domain_key status_registered

  -- A migration of domains that returns, for such a service and with nothing both deprecated and
  -- registered, leaves what is to be deprecated DEPRECATED and what is to be registered REGISTERED, and
  -- migrating again changes nothing.
  pub migrate_domains-AllAt :
      ServesDomains
      → (m : DomainMigrator) (w w' : W)
      → Disjoint domain_key new_domain_key m.deprecated_domains m.registered_domains
      → migrate_domains client m w ≡ returns w'
      → AllAt status domain_key status_deprecated w' m.deprecated_domains
        × AllAt status new_domain_key status_registered w' m.registered_domains
        × (migrate_domains client m w' ≡ returns w')
  unfolding migrate_domains deprecate_domain register_domain
  migrate_domains-AllAt s m w w' apart h =
      both-AllAt status decide_text _ client.deprecate_domain domain_key
        (ensure_deprecated-Ensures status _ _ s.describes client.deprecate_domain domain_key)
        s.deprecates _ client.register_domain new_domain_key
        (ensure_registered-Ensures status _ _ s.describes client.register_domain new_domain_key)
        s.registers m.deprecated_domains m.registered_domains w w' apart h
