-- ===== src/Limits/Policy.antt =====
-- limits.go: results of a policy. The package itself takes none of them up.
use icesmtp.Prelude.{[], none, Bytes}
use icesmtp.Protocol.Reply.{Response}

pub data PolicyDecision : Type 0 where
  policy_allow policy_deny policy_defer policy_continue : PolicyDecision

pub record PolicyResult : Type 0 where
  pub decision : PolicyDecision
  pub response : Response
  pub reason : Bytes

-- The response is the zero value.
unfoldable pub policy_allowed : PolicyResult
policy_allowed = record {
  decision = policy_allow;
  response = record { code = 0; enhanced_code = none; lines = [] };
  reason = [];
}

unfoldable pub policy_denied : Response → Bytes → PolicyResult
policy_denied response reason = record {
  decision = policy_deny;
  response = response;
  reason = reason;
}

unfoldable pub policy_deferred : Response → Bytes → PolicyResult
policy_deferred response reason = record {
  decision = policy_defer;
  response = response;
  reason = reason;
}
