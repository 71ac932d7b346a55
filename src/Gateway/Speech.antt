-- ===== src/Gateway/Speech.antt =====
-- Speech: the queue of `VoiceGateway` in voice/deskhelm_voice/gateway.py and its playback thread.
use deskhelm.Prelude.{
  ℕ, ◌+◌, String, string_eq, Bool, false, not, ◌&&◌, ◌||◌, List, [], ◌∷◌, ◌++◌, Option, none, some,
  length, select, ltb, leb, eqb, present, ◌==◌, if◌then◌else◌,
}
use deskhelm.Voice.Policy.{VoiceTarget}
use deskhelm.Gateway.{
  Gateway, VoiceEventKind, VoiceEvent, SpeechPriority, SpeechItem, QueuedSpeech, Player, Effect,
  plain_event, is_set, set_flag,
}
use deskhelm.Gateway.Ptt.{same_target, is_idle}

-- `enqueue_speech`
unfoldable pub enqueue_speech : SpeechItem → Gateway → Option Gateway
enqueue_speech item g =
    if g.closed || leb g.max_speech_items (length g.speech_queue)
    then none
    else some (record g {
      speech_sequence = g.speech_sequence + 1;
      speech_queue = g.speech_queue ++ (record { sequence = g.speech_sequence; item = item } ∷ []);
    })

-- What `stop_speaking` stops: the item with the id, or every interruptible one of the target.
unfoldable pub stops : VoiceTarget → String → SpeechItem → Bool
unfolding same_target
stops target speech_id item =
    same_target item.target target
    && (if speech_id == "" then item.interruptible else item.speech_id == speech_id)

unfoldable pub stops_current : VoiceTarget → String → Gateway → Bool
unfolding stops
stops_current target speech_id g = elim g.current_speech [
  | none ↦ false
  | some item ↦ stops target speech_id item && present g.current_speech_cancel
]

-- `stop_speaking`, with the number of items that it stopped.
unfoldable pub stop_speaking : VoiceTarget → String → Gateway → Gateway × ℕ
unfolding stops stops_current select
stop_speaking target speech_id g =
    let matches : QueuedSpeech → Bool = λ queued. stops target speech_id queued.item in
    let current = stops_current target speech_id g in
    (
      record g {
        speech_queue = select (λ queued. not (matches queued)) g.speech_queue;
        current_speech_cancel =
            if current then set_flag g.current_speech_cancel else g.current_speech_cancel;
      },
      length (select matches g.speech_queue) + (if current then 1 else 0),
    )

-- `_priority_rank`
unfoldable pub priority_rank : SpeechPriority → ℕ
priority_rank SpeechPriority.low = 0
priority_rank SpeechPriority.normal = 1
priority_rank SpeechPriority.high = 2

-- The key that `max` compares: the rank, then the older sequence. `max` keeps the first of equals.
unfoldable pub before_in_turn : QueuedSpeech → QueuedSpeech → Bool
unfolding priority_rank
before_in_turn a b =
    ltb (priority_rank b.item.priority) (priority_rank a.item.priority)
    || (eqb (priority_rank a.item.priority) (priority_rank b.item.priority)
        && ltb a.sequence b.sequence)

-- The item whose turn it is, among the first and the rest, with the others in their order.
unfoldable pub pick : QueuedSpeech → List QueuedSpeech → QueuedSpeech × List QueuedSpeech
unfolding before_in_turn
pick first [] = (first, [])
pick first (second ∷ rest) =
    let best = pick second rest in
    if before_in_turn best.0 first then (best.0, first ∷ best.1) else (first, second ∷ rest)

-- The item whose turn it is becomes the current one; without an item the thread waits on.
unfoldable pub take_next : List QueuedSpeech → Gateway → Gateway × List Effect
unfolding pick
take_next [] g = (g, [])
take_next (first ∷ rest) g =
    let best = pick first rest in
    let item = best.0.item in
    (
      record g {
        speech_queue = best.1;
        current_speech = some item;
        current_speech_cancel = some false;
        player = Player.synthesizes item;
      },
      Effect.emits (record (plain_event VoiceEventKind.speech_started item.target) {
        speech_id = item.speech_id;
      })
          ∷ [],
    )

-- The head of `_playback_loop`: the thread ends, takes an item, or waits for the key.
unfoldable pub take_speech : Gateway → Gateway × List Effect
unfolding is_idle take_next
take_speech g =
    if g.closed
    then (record g { player = Player.ended }, [])
    else if is_idle g.ptt_state
    then take_next g.speech_queue g
    else (g, [])

-- How the call of a provider came back.
pub data Played : Type 0 where
  done cancelled broken : Played

abbrev pub speech_event : VoiceEventKind → SpeechItem → VoiceEvent
speech_event kind item = record (plain_event kind item.target) { speech_id = item.speech_id }

unfoldable pub ending_event : Played → SpeechItem → VoiceEvent
ending_event Played.done item = speech_event VoiceEventKind.speech_completed item
ending_event Played.cancelled item = speech_event VoiceEventKind.speech_cancelled item
ending_event Played.broken item = record (speech_event VoiceEventKind.failure item) {
  error_code = "voice_output_failed";
}

-- The end of a round of `_playback_loop`. No other thread changes the current item.
unfoldable pub end_speech : Played → SpeechItem → Gateway → Gateway × List Effect
unfolding ending_event
end_speech how item g = (
  record g { current_speech = none; current_speech_cancel = none; player = Player.waits },
  Effect.emits (ending_event how item) ∷ [],
)

-- A call that came back well counts only where nothing has cancelled it meanwhile.
unfoldable pub unless_cancelled : Played → Gateway → Played
unless_cancelled Played.done g =
    if is_set g.current_speech_cancel then Played.cancelled else Played.done
unless_cancelled how g = how

unfoldable pub spoken : Played → SpeechItem → Gateway → Gateway × List Effect
unfolding end_speech
spoken Played.done item g = (
  record g { player = Player.plays item },
  Effect.emits (speech_event VoiceEventKind.tts_audio_ready item) ∷ [],
)
spoken how item g = end_speech how item g

-- `synthesize` comes back.
unfoldable pub synthesized : Played → SpeechItem → Gateway → Gateway × List Effect
unfolding spoken unless_cancelled
synthesized how item g = spoken (unless_cancelled how g) item g

-- The playback provider says that it has started.
unfoldable pub playback_started : SpeechItem → Gateway → Gateway × List Effect
playback_started item g = (g, Effect.emits (speech_event VoiceEventKind.playback_started item) ∷ [])

-- `play` comes back.
unfoldable pub played : Played → SpeechItem → Gateway → Gateway × List Effect
unfolding end_speech unless_cancelled
played how item g = end_speech (unless_cancelled how g) item g
