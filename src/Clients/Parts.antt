-- ===== src/Clients/Parts.antt =====
-- A WorkflowClient where the other parts of the program want a smaller interface (fsm.go, lines 21 to 25; types.go,
-- the migrators' clients; poller.go, the pollers' clients).
use swf4go.Fsm.Replication.{FsmClient}
use swf4go.Migrators.Client.{MigrationClient}
use swf4go.Clients.Interfaces.{WorkflowClient}

module _ {ℓ} {W : Type ℓ} (c : WorkflowClient W) where
  abbrev pub fsm_client : FsmClient W
  fsm_client = record {
    respond_decision_task_completed = c.decision_worker_client.respond_decision_task_completed;
    put_record = c.kinesis_client.put_record;
  }

  abbrev pub migration_client : MigrationClient W
  migration_client = record {
    register_activity_type = c.workflow_admin_client.register_activity_type;
    deprecate_activity_type = c.workflow_admin_client.deprecate_activity_type;
    register_workflow_type = c.workflow_admin_client.register_workflow_type;
    deprecate_workflow_type = c.workflow_admin_client.deprecate_workflow_type;
    register_domain = c.workflow_admin_client.register_domain;
    deprecate_domain = c.workflow_admin_client.deprecate_domain;
    describe_activity_type = c.workflow_info_client.describe_activity_type;
    describe_domain = c.workflow_info_client.describe_domain;
    describe_workflow_type = c.workflow_info_client.describe_workflow_type;
    create_stream = c.kinesis_client.create_stream;
    describe_stream = c.kinesis_client.describe_stream;
  }
