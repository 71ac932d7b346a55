-- ===== src/Gateway/Ptt.antt =====
-- Press to talk: the methods of `VoiceGateway` in voice/deskhelm_voice/gateway.py and its capture
-- thread. A step is what a thread does under the lock, with the events that it emits next to it;
-- `none` is a call that raises.
use deskhelm.Prelude.{
  ℕ, String, string_eq, nat_eq, option_eq, Bool, true, false, not, ◌&&◌, ◌||◌, List, [], ◌∷◌,
  Option, none, some, present, ◌==◌, if◌then◌else◌,
}
use deskhelm.Voice.Policy.{VoiceTarget, Transcript}
use deskhelm.Gateway.{
  Gateway, VoicePttState, VoiceEventKind, VoiceEvent, Worker, Effect, SpeechItem, plain_event,
  failure_event, is_set, set_flag,
}

-- `VoiceTarget` is compared field by field.
unfoldable pub same_target : VoiceTarget → VoiceTarget → Bool
same_target a b =
    a.agent_id == b.agent_id && a.session_id == b.session_id && a.project_id == b.project_id

unfoldable pub is_target : Option VoiceTarget → VoiceTarget → Bool
unfolding same_target
is_target none t = false
is_target (some a) t = same_target a t

unfoldable pub is_idle : VoicePttState → Bool
is_idle VoicePttState.idle = true
is_idle _ = false

-- `register_prompt_sink`, and the function that it returns.
unfoldable pub register_prompt_sink : ℕ → Gateway → Option Gateway
register_prompt_sink sink g =
    if g.closed || present g.prompt_sink then none else some (record g { prompt_sink = some sink })

unfoldable pub unregister : ℕ → Gateway → Gateway
unregister sink g = if g.prompt_sink == some sink then record g { prompt_sink = none } else g

-- What is spoken stops for the user, where it may be interrupted.
unfoldable pub interrupted : Option SpeechItem → Option Bool → Option Bool
interrupted none flag = flag
interrupted (some item) flag = if item.interruptible then set_flag flag else flag

-- `press_ptt`
unfoldable pub press_ptt : VoiceTarget → String → Gateway → Option (Gateway × List Effect)
unfolding is_idle interrupted
press_ptt target activation_id g =
    if g.closed || not (is_idle g.ptt_state) || not (present g.prompt_sink)
    then none
    else some (
      record g {
        current_speech_cancel = interrupted g.current_speech g.current_speech_cancel;
        ptt_state = VoicePttState.capturing;
        ptt_target = some target;
        ptt_activation_id = activation_id;
        ptt_stop = some false;
        ptt_cancel = some false;
        worker = Worker.captures target;
      },
      Effect.emits (plain_event VoiceEventKind.ptt_started target) ∷ [],
    )

unfoldable pub another : Option VoiceTarget → Gateway → Bool
unfolding is_target
another none g = false
another (some target) g = not (is_target g.ptt_target target)

-- `release_ptt`: a targeted release names the target and the activation, or neither.
unfoldable pub release_ptt : Option VoiceTarget → String → Gateway → Option (Gateway × Bool)
unfolding is_idle another
release_ptt target activation_id g =
    if (if present target then activation_id == "" else not (activation_id == ""))
    then none
    else if is_idle g.ptt_state || not (present g.ptt_stop)
    then some (g, false)
    else if another target g
    then some (g, false)
    else if not (activation_id == "") && not (g.ptt_activation_id == activation_id)
    then some (g, false)
    else some (record g { ptt_stop = some true }, true)

-- `cancel_ptt`
unfoldable pub cancel_ptt : Gateway → Gateway
unfolding is_idle
cancel_ptt g =
    if is_idle g.ptt_state
    then g
    else record g { ptt_cancel = set_flag g.ptt_cancel; ptt_stop = set_flag g.ptt_stop }

-- `_clear_ptt_locked`
unfoldable pub clear_ptt : Gateway → Gateway
clear_ptt g = record g {
  ptt_state = VoicePttState.idle;
  ptt_target = none;
  ptt_activation_id = "";
  ptt_stop = none;
  ptt_cancel = none;
}

-- The exceptions that `_capture_and_transcribe` tells apart.
pub data Trouble : Type 0 where
  cancelled no_transcript asr_timeout other : Trouble

unfoldable pub trouble_event : VoiceTarget → Trouble → VoiceEvent
trouble_event target Trouble.cancelled = plain_event VoiceEventKind.ptt_cancelled target
trouble_event target Trouble.no_transcript = failure_event target "voice_no_transcript"
trouble_event target Trouble.asr_timeout = failure_event target "voice_asr_timeout"
trouble_event target Trouble.other = failure_event target "voice_input_failed"

-- The `finally` of `_capture_and_transcribe`; the thread has nothing to do after it.
unfoldable pub finish_ptt : VoiceTarget → Gateway → Gateway
unfolding is_target clear_ptt
finish_ptt target g =
    let cleared = if is_target g.ptt_target target then clear_ptt g else g in
    record cleared { worker = Worker.free }

unfoldable pub fail_ptt : VoiceTarget → Trouble → Gateway → Gateway × List Effect
unfolding trouble_event finish_ptt
fail_ptt target trouble g = (finish_ptt target g, Effect.emits (trouble_event target trouble) ∷ [])

-- What a provider's call comes back with.
pub data Returned {ℓ} (A : Type ℓ) : Type ℓ where
  returned : A → Returned A
  raised : Trouble → Returned A

-- `_capture_audio` comes back; the audio goes on to the recogniser.
unfoldable pub captured : Returned (Unit {0}) → VoiceTarget → Gateway → Gateway × List Effect
unfolding fail_ptt is_target
captured (Returned.raised trouble) target g = fail_ptt target trouble g
captured (Returned.returned audio) target g =
    if is_set g.ptt_cancel || not (is_target g.ptt_target target)
    then fail_ptt target Trouble.cancelled g
    else (
      record g { ptt_state = VoicePttState.transcribing; worker = Worker.transcribes target },
      Effect.emits (plain_event VoiceEventKind.transcribing target) ∷ [],
    )

-- `_transcribe_with_timeout` comes back.
unfoldable pub transcribed : Returned Transcript → VoiceTarget → Gateway → Gateway × List Effect
unfolding fail_ptt
transcribed (Returned.raised trouble) target g = fail_ptt target trouble g
transcribed (Returned.returned transcript) target g =
    if is_set g.ptt_cancel then fail_ptt target Trouble.cancelled g else (
      record g { worker = Worker.delivers target transcript },
      Effect.emits (record (plain_event VoiceEventKind.transcript_ready target) {
        transcript = some transcript;
      })
          ∷ [],
    )

-- The call of the prompt sink, where there is one; `raises` says that it raises.
unfoldable pub handed_over : Option ℕ → Bool → VoiceTarget → Transcript → List Effect
handed_over none raises target transcript =
    Effect.emits (failure_event target "voice_prompt_failed") ∷ []
handed_over (some sink) true target transcript =
    Effect.prompts sink target transcript
    ∷ Effect.emits (failure_event target "voice_prompt_failed")
    ∷ []
handed_over (some sink) false target transcript = Effect.prompts sink target transcript ∷ []

-- The prompt sink is read and called.
unfoldable pub delivered : Bool → VoiceTarget → Transcript → Gateway → Gateway × List Effect
unfolding finish_ptt handed_over
delivered raises target transcript g =
    (finish_ptt target g, handed_over g.prompt_sink raises target transcript)

-- One round of the loop of `_transcribe_with_timeout`: whether it is cancelled, whether time is left,
-- and what the recogniser has come back with in the next moment.
pub record Poll : Type 0 where
  pub is_cancelled : Bool
  pub time_left : Bool
  pub answer : Option (Returned Transcript)

-- The loop; `none` is a recogniser that is still waited for. The Boolean says that the deadline set
-- the cancellation.
unfoldable pub transcribe_with_timeout : List Poll → Option (Returned Transcript × Bool)
transcribe_with_timeout [] = none
transcribe_with_timeout (poll ∷ polls) =
    let later = transcribe_with_timeout polls in
    if poll.is_cancelled
    then some (Returned.raised Trouble.cancelled, false)
    else if not poll.time_left
    then some (Returned.raised Trouble.asr_timeout, true)
    else elim poll.answer [ none ↦ later | some answer ↦ some (answer, false) ]
