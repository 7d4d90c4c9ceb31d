-- ===== src/Protocol/Common.antt =====
-- The types that requests, events and decisions share (protocol.go, lines 1199 to 1240).
use swf4go.Prelude.{Option, String}
use swf4go.Protocol.Date.{Date}

pub record TaskList : Type 0 where
  pub name : String

pub record WorkflowType : Type 0 where
  pub name : String
  pub version : String

pub record WorkflowExecution : Type 0 where
  pub run_id : String
  pub workflow_id : String

pub record ActivityType : Type 0 where
  pub name : String
  pub version : String

pub record WorkflowTypeInfo : Type 0 where
  pub creation_date : Option Date
  pub deprecation_date : Option Date
  pub description : String
  pub status : String
  pub workflow_type : WorkflowType

pub record ActivityTypeInfo : Type 0 where
  pub creation_date : Option Date
  pub deprecation_date : Option Date
  pub description : String
  pub status : String
  pub activity_type : ActivityType
