-- ===== src/Gateway/Protocol.antt =====
-- The order in which a listener meets the events of `VoiceGateway` in voice/deskhelm_voice/gateway.py.
use deskhelm.Prelude.{ℕ, String, ◌≢◌, All, List, [], ◌∷◌, ◌++◌, ◌≡◌, ◌⊎◌, some}
use deskhelm.Protocol.Fields.{strip}
use deskhelm.Voice.Policy.{VoiceTarget, Transcript}
use deskhelm.Gateway.{
  VoiceEventKind, SpeechItem, Worker, Player, Effect, plain_event, failure_event,
}
use deskhelm.Gateway.Ptt.{Trouble, trouble_event}
use deskhelm.Gateway.Speech.{Played, speech_event, ending_event}

-- What a listener knows of the key: nothing is said, or for which target, or the transcript too.
pub data KeyHeard : Type 0 where
  quiet : KeyHeard
  speaking : VoiceTarget → KeyHeard
  awaited : VoiceTarget → KeyHeard
  read : VoiceTarget → Transcript → KeyHeard
  prompted : VoiceTarget → KeyHeard

-- What a listener gets of the voice activity while a target's key is down.
pub data Overheard (t : VoiceTarget) : Effect → Type 0 where
  starts :
      (frame : ℕ)
      → Overheard t (
          Effect.emits (record (plain_event VoiceEventKind.input_speech_started t) {
            audio_frame_index = some frame;
          }))
  ends :
      (frame : ℕ)
      → Overheard t (
          Effect.emits (record (plain_event VoiceEventKind.input_speech_ended t) {
            audio_frame_index = some frame;
          }))
  fails : Overheard t (
      Effect.emits (record (plain_event VoiceEventKind.input_activity_failed t) {
        error_code = "voice_vad_failed";
      }))

-- A failure that is reported from outside, with a code that is not blank.
pub data Reported : Effect → Type 0 where
  report :
      (t : VoiceTarget) (error_code : String)
      → strip error_code ≢ ""
      → Reported (Effect.emits (failure_event t error_code))

-- One activation: it starts, voice activity is heard, its capture ends, its transcript is shown, and its prompt goes to the
-- sink; or it ends with a cancellation or a failure. All of it names the target of the start.
pub data KeyHears : KeyHeard → Effect → KeyHeard → Type 0 where
  starts :
      {t : VoiceTarget}
      → KeyHears quiet (Effect.emits (plain_event VoiceEventKind.ptt_started t)) (speaking t)
  starts_again :
      {s t : VoiceTarget}
      → KeyHears (prompted s) (Effect.emits (plain_event VoiceEventKind.ptt_started t)) (speaking t)
  overhears : {t : VoiceTarget} {e : Effect} → Overheard t e → KeyHears (speaking t) e (speaking t)
  breaks_off :
      {t : VoiceTarget} (trouble : Trouble)
      → KeyHears (speaking t) (Effect.emits (trouble_event t trouble)) quiet
  transcribes :
      {t : VoiceTarget}
      → KeyHears (speaking t) (Effect.emits (plain_event VoiceEventKind.transcribing t)) (awaited t)
  gives_up :
      {t : VoiceTarget} (trouble : Trouble)
      → KeyHears (awaited t) (Effect.emits (trouble_event t trouble)) quiet
  shows :
      {t : VoiceTarget} {transcript : Transcript}
      → KeyHears
          (awaited t)
          (Effect.emits (record (plain_event VoiceEventKind.transcript_ready t) {
            transcript = some transcript;
          }))
          (read t transcript)
  hands_over :
      {t : VoiceTarget} {transcript : Transcript} {sink : ℕ}
      → KeyHears (read t transcript) (Effect.prompts sink t transcript) (prompted t)
  has_no_sink :
      {t : VoiceTarget} {transcript : Transcript}
      → KeyHears (read t transcript) (Effect.emits (failure_event t "voice_prompt_failed")) quiet
  is_refused :
      {t : VoiceTarget}
      → KeyHears (prompted t) (Effect.emits (failure_event t "voice_prompt_failed")) quiet

pub data SpeechHeard : Type 0 where
  silent : SpeechHeard
  announced : SpeechItem → SpeechHeard
  audible : SpeechItem → SpeechHeard

-- One item at a time: it starts, its audio is ready, the playback starts, and it ends.
pub data SpeechHears : SpeechHeard → Effect → SpeechHeard → Type 0 where
  begins :
      {i : SpeechItem}
      → SpeechHears silent
          (Effect.emits (speech_event VoiceEventKind.speech_started i))
          (announced i)
  is_ready :
      {i : SpeechItem}
      → SpeechHears
          (announced i)
          (Effect.emits (speech_event VoiceEventKind.tts_audio_ready i))
          (audible i)
  plays :
      {i : SpeechItem}
      → SpeechHears
          (audible i)
          (Effect.emits (speech_event VoiceEventKind.playback_started i))
          (audible i)
  ends_early :
      {i : SpeechItem} (how : Played)
      → SpeechHears (announced i) (Effect.emits (ending_event how i)) silent
  ends :
      {i : SpeechItem} (how : Played)
      → SpeechHears (audible i) (Effect.emits (ending_event how i)) silent

-- A listener of everything: each effect goes on with the key or with the speech, or is a report.
pub data Heard : KeyHeard → SpeechHeard → List Effect → KeyHeard → SpeechHeard → Type 0 where
  nothing : {k : KeyHeard} {s : SpeechHeard} → Heard k s [] k s
  reports :
      {k m : KeyHeard} {s u : SpeechHeard} {e : Effect} {es : List Effect}
      → Reported e
      → Heard k s es m u
      → Heard k s (e ∷ es) m u
  key :
      {k l m : KeyHeard} {s u : SpeechHeard} {e : Effect} {es : List Effect}
      → KeyHears k e l
      → Heard l s es m u
      → Heard k s (e ∷ es) m u
  speech :
      {k m : KeyHeard} {s r u : SpeechHeard} {e : Effect} {es : List Effect}
      → SpeechHears s e r
      → Heard k r es m u
      → Heard k s (e ∷ es) m u

pub Heard-append :
    {k l m : KeyHeard} {s r u : SpeechHeard} (es fs : List Effect)
    → Heard k s es l r
    → Heard l r fs m u
    → Heard k s (es ++ fs) m u
Heard-append es fs nothing h = h
Heard-append (e ∷ es) fs (Heard.reports said rest) h =
    Heard.reports said (Heard-append es fs rest h)
Heard-append (e ∷ es) fs (Heard.key step rest) h = Heard.key step (Heard-append es fs rest h)
Heard-append (e ∷ es) fs (Heard.speech step rest) h = Heard.speech step (Heard-append es fs rest h)

pub reported-Heard :
    {k : KeyHeard} {s : SpeechHeard} (es : List Effect) → All Reported es → Heard k s es k s
reported-Heard [] h = Heard.nothing
reported-Heard (e ∷ es) h = Heard.reports h.0 (reported-Heard es h.1)

pub overheard-Heard :
    {t : VoiceTarget} {s : SpeechHeard} (es : List Effect)
    → All (Overheard t) es
    → Heard (speaking t) s es (speaking t) s
overheard-Heard [] h = Heard.nothing
overheard-Heard (e ∷ es) h = Heard.key (KeyHears.overhears h.0) (overheard-Heard es h.1)

-- What a listener knows is where the threads stand.
abbrev pub KeyTracks : Worker → KeyHeard → Type 0
KeyTracks Worker.free k = (k ≡ quiet) ⊎ ((t : VoiceTarget) × (k ≡ prompted t))
KeyTracks (Worker.captures t) k = k ≡ speaking t
KeyTracks (Worker.transcribes t) k = k ≡ awaited t
KeyTracks (Worker.delivers t transcript) k = k ≡ read t transcript

abbrev pub SpeechTracks : Player → SpeechHeard → Type 0
SpeechTracks Player.waits s = s ≡ silent
SpeechTracks (Player.synthesizes i) s = s ≡ announced i
SpeechTracks (Player.plays i) s = s ≡ audible i
SpeechTracks Player.ended s = s ≡ silent
