-- ===== src/Gateway/Capture.antt =====
-- The capture of `VoiceGateway` in voice/deskhelm_voice/gateway.py. What the stream and the detector answer is
-- a list; the float comparison of the duration is a parameter.
use deskhelm.Prelude.{
  ℕ, ◌+◌, ◌*◌, ◌/◌, Bool, true, not, ◌&&◌, ◌||◌, List, [], ◌∷◌, ◌++◌, Option, none, some, length,
  ltb, eqb, if◌then◌else◌,
}
use deskhelm.Voice.Policy.{VoiceTarget}
use deskhelm.Gateway.{Effect}
use deskhelm.Gateway.Ptt.{Trouble}
use deskhelm.Gateway.Vad.{
  VadEvent, VadObservation, Detected, new_observation, observe_chunk, finish_vad,
}

abbrev pub max_capture_chunks : ℕ
max_capture_chunks = 10000

-- The sample format is always 16 bits, so two bytes for each channel.
pub record PcmStreamFormat : Type 0 where
  pub sample_rate_hz : ℕ
  pub channels : ℕ

unfoldable pub frame_bytes : PcmStreamFormat → ℕ
frame_bytes format = format.channels * 2

pub record PcmChunk : Type 0 where
  pub bytes : List ℕ
  pub format : PcmStreamFormat
  pub start_frame : ℕ

unfoldable pub end_frame : PcmChunk → ℕ
unfolding frame_bytes
end_frame chunk = chunk.start_frame + length chunk.bytes / frame_bytes chunk.format

pub record CapturedAudio : Type 0 where
  pub bytes : List ℕ
  pub format : PcmStreamFormat

-- What `stream.read` comes back with, and what the detector says of it. `ended` is `None`, with
-- whether the key was released.
pub data Read : Type 0 where
  gives : PcmChunk → Detected (Unit {0}) → Detected (List VadEvent) → Read
  ended : Bool → Detected (List VadEvent) → Read
  raises : Trouble → Read

pub record CaptureLimits : Type 0 where
  pub max_capture_bytes : ℕ
  -- next_frame / sample_rate_hz > max_capture_seconds
  pub too_long : ℕ → ℕ → Bool
  -- Whether there is a detector.
  pub provided : Bool

-- The variables of `_collect_stream`.
pub record Collected : Type 0 where
  pub captured : List ℕ
  pub stream_format : Option PcmStreamFormat
  pub next_frame : ℕ
  pub chunk_count : ℕ
  pub vad : VadObservation

unfoldable pub nothing_collected : Collected
unfolding new_observation
nothing_collected = record {
  captured = [];
  stream_format = none;
  next_frame = 0;
  chunk_count = 0;
  vad = new_observation;
}

unfoldable pub same_format : Option PcmStreamFormat → PcmStreamFormat → Bool
same_format none format = true
same_format (some first) format =
    eqb format.sample_rate_hz first.sample_rate_hz && eqb format.channels first.channels

-- The checks of a chunk; `none` is a raised error.
unfoldable pub add_chunk : CaptureLimits → PcmChunk → Collected → Option Collected
unfolding same_format end_frame
add_chunk limits chunk c =
    let captured = c.captured ++ chunk.bytes in
    if ltb max_capture_chunks (c.chunk_count + 1)
      || not (same_format c.stream_format chunk.format)
      || not (eqb chunk.start_frame c.next_frame)
      || ltb limits.max_capture_bytes (length captured)
      || limits.too_long (end_frame chunk) chunk.format.sample_rate_hz
    then none
    else some (record c {
      captured = captured;
      stream_format = some chunk.format;
      next_frame = end_frame chunk;
      chunk_count = c.chunk_count + 1;
    })

-- `reading` is a capture that goes on.
pub data Capture : Type 0 where
  audio : CapturedAudio → Capture
  failed : Trouble → Capture
  reading : Capture

unfoldable pub captured_audio : Option PcmStreamFormat → List ℕ → Capture
captured_audio none bytes = Capture.failed Trouble.other
captured_audio (some format) [] = Capture.failed Trouble.other
captured_audio (some format) (byte ∷ bytes) =
    Capture.audio (record { bytes = byte ∷ bytes; format = format })

-- The loop of `_collect_stream` and what follows it, with the effects of the detector.
unfoldable pub collect : CaptureLimits → VoiceTarget → List Read → Collected → Capture × List Effect
unfolding add_chunk observe_chunk finish_vad captured_audio
collect limits target [] c = (Capture.reading, [])
collect limits target (Read.raises trouble ∷ reads) c = (Capture.failed trouble, [])
collect limits target (Read.ended released events ∷ reads) c =
    if not released
    then (Capture.failed Trouble.other, [])
    else elim (finish_vad target c.vad events c.next_frame) [
      | none ↦ (Capture.failed Trouble.cancelled, [])
      | some seen ↦ (captured_audio c.stream_format c.captured, seen.1)
    ]
collect limits target (Read.gives chunk opening events ∷ reads) c =
    elim (add_chunk limits chunk c) [
      | none ↦ (Capture.failed Trouble.other, [])
      | some more ↦
          elim (observe_chunk limits.provided target c.vad opening events (end_frame chunk)) [
            | none ↦ (Capture.failed Trouble.cancelled, [])
            | some seen ↦
                let rest = collect limits target reads (record more { vad = seen.0 }) in
                (rest.0, seen.1 ++ rest.1)
          ]
    ]

-- `_collect_stream`
unfoldable pub collect_stream :
    CaptureLimits → VoiceTarget → Bool → List Read → Capture × List Effect
unfolding collect nothing_collected
collect_stream limits target cancelled reads =
    let collected = collect limits target reads nothing_collected in
    if cancelled then (Capture.failed Trouble.cancelled, []) else collected
