-- ===== src/Controller/Diagnostics.antt =====
-- src/pi-rpc-diagnostics.ts: `makeSafeRuntimeDiagnostic`, and the diagnostics that
-- src/controller/attempt-settlement.ts and attempt-integrity.ts make with it.
use herdr_harness_lite.Controller.Ports.{Outcome, throw, ok}
use herdr_harness_lite.Base.{
  String, false, some, if◌then◌else◌, none, is_some, ◌&&◌, ◌/=◌, not, string_eq, option_eq,
}
use herdr_harness_lite.Model.Encode.{unprinted_value}
use herdr_harness_lite.Model.Platform.{Platform}
use herdr_harness_lite.Model.Diagnostic.{SafeRuntimeDiagnostic}
use herdr_harness_lite.Model.Digest.{digest}

-- `input` has its stable classification; its fingerprint is not read.
unfoldable pub make_safe_runtime_diagnostic :
    Platform → SafeRuntimeDiagnostic → Outcome SafeRuntimeDiagnostic
unfolding unprinted_value
make_safe_runtime_diagnostic platform input =
    let staged = record input { failure_stage = input.stage } in
    let printed = record staged {
      diagnostic_fingerprint = digest platform (unprinted_value staged);
    } in
    if is_some input.failure_stage && input.failure_stage /= input.stage
    then throw "runtime failure stage aliases differ"
    else if not (platform.is_safe_diagnostic printed)
    then throw "invalid safe runtime diagnostic"
    else ok printed

-- A failure of acceptance: the code is that of the stable classification too, and none is retryable.
abbrev acceptance : String → String → String → SafeRuntimeDiagnostic
acceptance failure_domain code stage = record {
  failure_domain = failure_domain;
  failure_code = code;
  retryable = false;
  domain = some "acceptance";
  code = some code;
  stage = some stage;
  diagnostic_fingerprint = "";
  http_status = none;
  provider_api = none;
  phase = none;
  turn_count = none;
  assistant_message_count = none;
  tool_execution_count = none;
  tool_error_count = none;
  transcript_size_bucket = none;
  failure_stage = none;
  child_exit = none;
  assistant_content_observed = none;
  tool_call_observed = none;
  tool_execution_started = none;
  durable_result_present = none;
  worktree_changed = none;
  commit_created = none;
}

-- `resultDiagnostic(code)`
unfoldable pub result_diagnostic : Platform → String → Outcome SafeRuntimeDiagnostic
unfolding make_safe_runtime_diagnostic
result_diagnostic platform code =
    make_safe_runtime_diagnostic platform (acceptance "result" code "result-validation")

-- `gitDiagnostic()`
unfoldable pub git_diagnostic : Platform → Outcome SafeRuntimeDiagnostic
unfolding make_safe_runtime_diagnostic
git_diagnostic platform =
    make_safe_runtime_diagnostic platform (acceptance "git" "git_integrity" "git-verification")
