-- ===== src/Migrators/Client.antt =====
-- What the migrators use of their clients (clients.go, `WorkflowAdminClient`, `WorkflowInfoClient` and
-- `KinesisClient`).
use swf4go.Prelude.{Option}
use swf4go.Go.{GoError, Result}
use swf4go.Protocol.Admin.{
  DeprecateActivityType, DeprecateWorkflowType, DeprecateDomain, RegisterActivityType,
  RegisterDomain, RegisterWorkflowType,
}
use swf4go.Protocol.Info.{
  DescribeActivityTypeRequest, DescribeActivityTypeResponse, DescribeDomainRequest,
  DescribeDomainResponse, DescribeWorkflowTypeRequest, DescribeWorkflowTypeResponse,
}
use swf4go.Protocol.Kinesis.{CreateStream, DescribeStreamRequest, DescribeStreamResponse}

pub record MigrationClient {ℓ} (W : Type ℓ) : Type ℓ where
  pub register_activity_type : RegisterActivityType → W → Option GoError × W
  pub deprecate_activity_type : DeprecateActivityType → W → Option GoError × W
  pub register_workflow_type : RegisterWorkflowType → W → Option GoError × W
  pub deprecate_workflow_type : DeprecateWorkflowType → W → Option GoError × W
  pub register_domain : RegisterDomain → W → Option GoError × W
  pub deprecate_domain : DeprecateDomain → W → Option GoError × W
  pub describe_activity_type :
      DescribeActivityTypeRequest → W → Result DescribeActivityTypeResponse × W
  pub describe_domain : DescribeDomainRequest → W → Result DescribeDomainResponse × W
  pub describe_workflow_type :
      DescribeWorkflowTypeRequest → W → Result DescribeWorkflowTypeResponse × W
  pub create_stream : CreateStream → W → Option GoError × W
  pub describe_stream : DescribeStreamRequest → W → Result DescribeStreamResponse × W
