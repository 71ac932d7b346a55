-- ===== src/Examples/Voice.antt =====
-- Spoken approvals and notices: bridge/deskhelm_voice_host/policy.py.
use Prim.Native.Char.{Char}
use Prim.Native.String.{count}
use deskhelm.Prelude.{◌≤◌, ◌≢◌, Bool, true, false, [], ◌∷◌, none, some, All}
use deskhelm.Protocol.Request.{RequestKind}
use deskhelm.Core.Frames.{Activity, Lifecycle, View}
use deskhelm.Voice.Client.{ConsoleState, Reply}
use deskhelm.Voice.Policy.{Transcript, Call, target_of, transcript}
use deskhelm.Voice.Transcript.{Sends, transcript-Sends}
use deskhelm.Voice.Notices.{notices, project_name, max_project_name_chars}
use deskhelm.Voice.Due.{Due, notices-Due}
use deskhelm.Voice.Labels.{project_name-bound}
use deskhelm.Examples.Frames.{codex_key, codex_runtime}
use deskhelm.Examples.Window.{matrix}

abbrev pub waiting : View
waiting = record {
  key = codex_key;
  runtime = codex_runtime;
  capabilities = matrix;
  lifecycle = Lifecycle.active;
  activity = Activity.waiting_approval;
  turn_id = some "t-1";
  last_outcome = none;
  approvals =
      record {
        approval_id = "a-i-1";
        kind = RequestKind.approval;
        summary = "run tests";
        expires_at = 9000;
        answerable = true;
      }
      ∷ [];
  attention = false;
  opened_at = 20;
  catalog_rev = 0;
}

abbrev console : ConsoleState
console = record {
  instance_id = "i";
  seq = 3;
  focus = some codex_key;
  sessions = (codex_key, waiting) ∷ [];
}

abbrev agreed : Transcript
agreed = record { transcript_id = "t-7"; normalized_text = " 同意 " }

abbrev accepting : Call → Reply
accepting call = record { accepted = true; code = "dispatched" }

transcript-Sends_example :
    Sends console 500
      (target_of codex_key)
      agreed
      accepting
      (transcript console 500 accepting (target_of codex_key) agreed)
transcript-Sends_example = transcript-Sends console 500 (target_of codex_key) agreed accepting

abbrev lower : Char → Bool
lower c = true

project_name-bound_example :
    (count (project_name lower " desk  helm ") ≤ max_project_name_chars)
    × (project_name lower " desk  helm " ≢ "")
project_name-bound_example = project_name-bound lower " desk  helm "

abbrev working : View
working = record waiting { activity = Activity.working }

notices-Due_example : All (Due working waiting) (notices working waiting)
notices-Due_example = notices-Due working waiting
