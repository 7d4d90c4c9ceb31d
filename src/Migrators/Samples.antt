-- ===== src/Migrators/Samples.antt =====
-- A sample service that keeps the newest status of each key.
pub mod Statuses
use swf4go.Prelude.{
  String, ◌≡◌, ◌≢◌, refl, sym, ap, ◌∙◌, arith, eq_iff, eq_refl, eq-false, Bool, true, false, ◌&&◌,
  ◌==◌, Bool-cases, inl, inr, Option, none, some, List, [], ◌∷◌,
}
use swf4go.Go.{GoError, response, Result, ok, err}
use swf4go.Protocol.ErrorResponse.{
  ErrorResponse, status_registered, status_deprecated, error_type_unknown_resource_fault,
}
use swf4go.Protocol.Common.{WorkflowType, ActivityType}
use swf4go.Protocol.Info.{
  DescribeDomainResponse, DescribeWorkflowTypeResponse, DescribeActivityTypeResponse,
}
use swf4go.Migrators.Client.{MigrationClient}
use swf4go.Migrators.Established.WorkflowTypes.{
  workflow_type_key, new_workflow_type_key, ServesWorkflowTypes,
}
use swf4go.Migrators.Established.ActivityTypes.{
  activity_type_key, new_activity_type_key, ServesActivityTypes,
}
use swf4go.Migrators.Established.Domains.{domain_key, new_domain_key, ServesDomains}
use Statuses.{
  newest, newest-true, newest-false, find_status, Key, same_text, same_key, same_key_refl,
  same_key_other, same_text_other,
}

pub record Service : Type 0 where
  pub domains : List (String × String)
  pub workflows : List (Key × String)
  pub activities : List (Key × String)

abbrev pub unknown : ErrorResponse
unknown = record { status_code = 400; type = error_type_unknown_resource_fault; message = "" }

unfoldable pub answer : {A : Type 0} → (String → A) → Option String → Result A
answer describe none = err (response unknown)
answer describe (some t) = ok (describe t)

abbrev pub domain_of : String → String → DescribeDomainResponse
domain_of name t = record {
  configuration = record { workflow_execution_retention_period_in_days = "" };
  domain_info = record { description = ""; name = name; status = t };
}

abbrev pub workflow_of : WorkflowType → String → DescribeWorkflowTypeResponse
workflow_of type t = record {
  configuration = record {
    default_child_policy = "";
    default_execution_start_to_close_timeout = "";
    default_task_list = record { name = "" };
    default_task_start_to_close_timeout = "";
  };
  type_info = record {
    creation_date = none;
    deprecation_date = none;
    description = "";
    status = t;
    workflow_type = type;
  };
}

abbrev pub activity_of : ActivityType → String → DescribeActivityTypeResponse
activity_of type t = record {
  configuration = record {
    default_task_heartbeat_timeout = "";
    default_task_list = record { name = "" };
    default_task_schedule_to_close_timeout = "";
    default_task_schedule_to_start_timeout = "";
    default_task_start_to_close_timeout = "";
  };
  type_info = record {
    creation_date = none;
    deprecation_date = none;
    description = "";
    status = t;
    activity_type = type;
  };
}

abbrev pub set_domain : String → String → Service → Option GoError × Service
set_domain name t w = (none, record w { domains = (name, t) ∷ w.domains })

abbrev pub set_workflow : Key → String → Service → Option GoError × Service
set_workflow k t w = (none, record w { workflows = (k, t) ∷ w.workflows })

abbrev pub set_activity : Key → String → Service → Option GoError × Service
set_activity k t w = (none, record w { activities = (k, t) ∷ w.activities })

unfoldable pub service : MigrationClient Service
unfolding find_status answer
service = record {
  register_domain = λ r w. set_domain r.name status_registered w;
  deprecate_domain = λ d w. set_domain d.name status_deprecated w;
  describe_domain = λ r w. (answer (domain_of r.name) (find_status same_text w.domains r.name), w);
  register_workflow_type = λ r w. set_workflow (r.domain, (r.name, r.version)) status_registered w;
  deprecate_workflow_type = λ d w.
      set_workflow (d.domain, (d.workflow_type.name, d.workflow_type.version)) status_deprecated w;
  describe_workflow_type = λ r w. (
    answer (workflow_of r.workflow_type) (
        find_status same_key w.workflows
          (r.domain, (r.workflow_type.name, r.workflow_type.version))),
    w,
  );
  register_activity_type = λ r w. set_activity (r.domain, (r.name, r.version)) status_registered w;
  deprecate_activity_type = λ d w.
      set_activity (d.domain, (d.activity_type.name, d.activity_type.version)) status_deprecated w;
  describe_activity_type = λ r w. (
    answer (activity_of r.activity_type) (
        find_status same_key w.activities
          (r.domain, (r.activity_type.name, r.activity_type.version))),
    w,
  );
  create_stream = λ r w. (none, w);
  describe_stream = λ r w. (err (response unknown), w);
}

unfoldable pub domain_status : Service → String → Option String
unfolding find_status
domain_status w k = find_status same_text w.domains k

pub service-ServesDomains : ServesDomains service domain_status
unfolding newest service answer domain_status find_status
service-ServesDomains = record {
  describes = record {
    known = λ k w t e. (domain_of k t, rw e refl, refl);
    unknown = λ k w e. (unknown, rw e refl, refl);
  };
  deprecates = record {
    here = λ d w w' e.
        ap (λ (x : Option GoError × Service). domain_status x.1 (domain_key d)) (sym e)
        ∙ newest-true _ status_deprecated _ (eq_refl (domain_key d));
    elsewhere = λ d w w' k e ne.
        ap (λ (x : Option GoError × Service). domain_status x.1 k) (sym e)
        ∙ newest-false _ status_deprecated _ (same_text_other (domain_key d) k ne);
  };
  registers = record {
    here = λ r w w' e.
        ap (λ (x : Option GoError × Service). domain_status x.1 (new_domain_key r)) (sym e)
        ∙ newest-true _ status_registered _ (eq_refl (new_domain_key r));
    elsewhere = λ r w w' k e ne.
        ap (λ (x : Option GoError × Service). domain_status x.1 k) (sym e)
        ∙ newest-false _ status_registered _ (same_text_other (new_domain_key r) k ne);
  };
}

unfoldable pub workflow_status : Service → Key → Option String
unfolding find_status
workflow_status w k = find_status same_key w.workflows k

unfoldable pub activity_status : Service → Key → Option String
unfolding find_status
activity_status w k = find_status same_key w.activities k

pub service-ServesWorkflowTypes : ServesWorkflowTypes service workflow_status
unfolding newest service answer workflow_status find_status
service-ServesWorkflowTypes = record {
  describes = record {
    known = λ k w t e. (workflow_of (record { name = k.1.0; version = k.1.1 }) t, rw e refl, refl);
    unknown = λ k w e. (unknown, rw e refl, refl);
  };
  deprecates = record {
    here = λ d w w' e.
        ap (λ (x : Option GoError × Service). workflow_status x.1 (workflow_type_key d)) (sym e)
        ∙ newest-true _ status_deprecated _ (same_key_refl (workflow_type_key d));
    elsewhere = λ d w w' k e ne.
        ap (λ (x : Option GoError × Service). workflow_status x.1 k) (sym e)
        ∙ newest-false _ status_deprecated _ (same_key_other (workflow_type_key d) k ne);
  };
  registers = record {
    here = λ r w w' e.
        ap (λ (x : Option GoError × Service). workflow_status x.1 (new_workflow_type_key r)) (sym e)
        ∙ newest-true _ status_registered _ (same_key_refl (new_workflow_type_key r));
    elsewhere = λ r w w' k e ne.
        ap (λ (x : Option GoError × Service). workflow_status x.1 k) (sym e)
        ∙ newest-false _ status_registered _ (same_key_other (new_workflow_type_key r) k ne);
  };
}

pub service-ServesActivityTypes : ServesActivityTypes service activity_status
unfolding newest service answer activity_status find_status
service-ServesActivityTypes = record {
  describes = record {
    known = λ k w t e. (activity_of (record { name = k.1.0; version = k.1.1 }) t, rw e refl, refl);
    unknown = λ k w e. (unknown, rw e refl, refl);
  };
  deprecates = record {
    here = λ d w w' e.
        ap (λ (x : Option GoError × Service). activity_status x.1 (activity_type_key d)) (sym e)
        ∙ newest-true _ status_deprecated _ (same_key_refl (activity_type_key d));
    elsewhere = λ d w w' k e ne.
        ap (λ (x : Option GoError × Service). activity_status x.1 k) (sym e)
        ∙ newest-false _ status_deprecated _ (same_key_other (activity_type_key d) k ne);
  };
  registers = record {
    here = λ r w w' e.
        ap (λ (x : Option GoError × Service). activity_status x.1 (new_activity_type_key r)) (sym e)
        ∙ newest-true _ status_registered _ (same_key_refl (new_activity_type_key r));
    elsewhere = λ r w w' k e ne.
        ap (λ (x : Option GoError × Service). activity_status x.1 k) (sym e)
        ∙ newest-false _ status_registered _ (same_key_other (new_activity_type_key r) k ne);
  };
}
