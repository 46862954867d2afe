-- ===== src/LambdaService/Events/Processor/Tests.antt =====
-- Runs of the event processor.
use mini_lambda.Common.{◌≡◌, refl, true, some, [], inl}
use mini_lambda.Common.Int.{pos}
use mini_lambda.LambdaService.Events.{Event}
use mini_lambda.LambdaService.Events.Processor.{Answers, Records, handle_message}
use mini_lambda.LambdaService.Events.Processor.Fate.{failing_fate, fate}

abbrev event : Event
event = record {
  id = "e";
  event_type = "queue";
  function_id = "f";
  payload = "{}";
  metadata = [];
  timestamp = 0;
  retry_count = pos 0;
  max_retries = pos 3;
}

-- The function is not found.
abbrev failing : Answers
failing = record {
  got = inl "function not found";
  executed = inl "";
  audit_added = true;
  execution_id = "x";
  execution_saved = true;
  pushed = true;
  started = 0;
  ended = 5_000_000;
}

abbrev no_records : Records
no_records = record { audit = some []; dead_letters = []; executions = [] }

failing_fate_example :
    let (r', told) = handle_message failing (some event) no_records in
    ((r'.dead_letters, told) ≡ fate failing event "function not found" no_records.dead_letters)
    × (r'.executions ≡ no_records.executions)
failing_fate_example = failing_fate failing event "function not found" no_records refl
