-- ===== src/Examples/Blobs.antt =====
-- Requests for the file of a test, and for one that no event lists.
use bepper.Base.{none, some, [], ◌∷◌, true, false}
use bepper.Base.Int.{pos}
use bepper.Events.{BuildEvent, EventId, Payload, TestStatus}
use bepper.Store.{ReadResult}
use bepper.Webui.{Transfer, stream_reply}
use bepper.Webui.Streaming.{Honest, stream_reply-Honest}

abbrev pub test_log : BuildEvent
test_log = record {
  id = EventId.test_result "//:t";
  children = [];
  payload = Payload.test_result (record {
    status = TestStatus.passed;
    attempt_start = pos 0;
    attempt_duration = pos 0;
    cached_locally = false;
    action_output = record { name = "test.log"; uri = "bytestream://cache/1" } ∷ [];
  });
}

abbrev transfer : Transfer
transfer = record { writes = (1 ∷ 2 ∷ []) ∷ []; error = some "reset" }

abbrev pub read_log : ReadResult
read_log = record { events = test_log ∷ []; found = true; error = none }

stream_reply-Honest_example : Honest "test.log" transfer (stream_reply "test.log" transfer)
stream_reply-Honest_example = stream_reply-Honest "test.log" transfer
