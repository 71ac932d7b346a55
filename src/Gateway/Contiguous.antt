-- ===== src/Gateway/Contiguous.antt =====
-- What audio `_collect_stream` of voice/deskhelm_voice/gateway.py hands to the recogniser.
use deskhelm.Prelude.{
  ℕ, ◌+◌, ◌≤◌, ◌<◌, Bool, true, false, not, ◌||◌, List, [], ◌∷◌, ◌++◌, append_assoc, append-nil,
  Option, none, some, length, ltb, eqb, eqb_iff, not_ltb→le, or-false, and-true, not-false,
  some-injective, ◌≡◌, inl, inr, refl, sym, ap, subst, ◌∙◌, arith, Bool-cases, Option-cases,
}
use deskhelm.Voice.Policy.{VoiceTarget}
use deskhelm.Gateway.Vad.{observe_chunk, finish_vad}
use deskhelm.Gateway.Capture.{
  PcmStreamFormat, PcmChunk, end_frame, CapturedAudio, Read, CaptureLimits, Collected,
  nothing_collected, same_format, add_chunk, Capture, captured_audio, collect, collect_stream,
  max_capture_chunks,
}

-- The chunks that a stream gives before anything else.
unfoldable pub chunks : List Read → List PcmChunk
chunks (Read.gives chunk opening events ∷ reads) = chunk ∷ chunks reads
chunks reads = []

unfoldable pub all_bytes : List PcmChunk → List ℕ
all_bytes [] = []
all_bytes (chunk ∷ rest) = chunk.bytes ++ all_bytes rest

-- Chunks of one format that begin at a frame and leave no gap.
abbrev pub Contiguous : PcmStreamFormat → ℕ → List PcmChunk → Type 0
Contiguous format frame [] = Unit
Contiguous format frame (chunk ∷ rest) =
    (chunk.start_frame ≡ frame) × (chunk.format ≡ format) × Contiguous format (end_frame chunk) rest

-- What a chunk that is added has passed.
added :
    (limits : CaptureLimits) (chunk : PcmChunk) (c more : Collected)
    → add_chunk limits chunk c ≡ some more
    → (more.captured ≡ c.captured ++ chunk.bytes)
      × (more.stream_format ≡ some chunk.format)
      × (more.next_frame ≡ end_frame chunk)
      × (more.chunk_count ≡ c.chunk_count + 1)
      × (chunk.start_frame ≡ c.next_frame)
      × (c.chunk_count + 1 ≤ max_capture_chunks)
      × (length more.captured ≤ limits.max_capture_bytes)
      × (limits.too_long (end_frame chunk) chunk.format.sample_rate_hz ≡ false)
      × (same_format c.stream_format chunk.format ≡ true)
unfolding add_chunk
added limits chunk c more h =
    let captured = c.captured ++ chunk.bytes in
    let many = ltb max_capture_chunks (c.chunk_count + 1) in
    let other = not (same_format c.stream_format chunk.format) in
    let gap = not (eqb chunk.start_frame c.next_frame) in
    let big = ltb limits.max_capture_bytes (length captured) in
    let long = limits.too_long (end_frame chunk) chunk.format.sample_rate_hz in
    elim (Bool-cases (many || other || gap || big || long)) [
      | inl bad ↦ cc (rw bad at h)
      | inr good ↦
          let same = some-injective (rw good at h) in
          let (with_big, short) = or-false (many || other || gap || big) long good in
          let (with_gap, small) = or-false (many || other || gap) big with_big in
          let (with_other, next) = or-false (many || other) gap with_gap in
          let (few, alike) = or-false many other with_other in
          let captured_same = ap (λ (m : Collected). m.captured) (sym same) in
          (
            captured_same,
            ap (λ (m : Collected). m.stream_format) (sym same),
            ap (λ (m : Collected). m.next_frame) (sym same),
            ap (λ (m : Collected). m.chunk_count) (sym same),
            (eqb_iff chunk.start_frame c.next_frame).0 (not-false _ next),
            not_ltb→le max_capture_chunks (c.chunk_count + 1) few,
            omega (
              arith,
              ap length captured_same,
              not_ltb→le limits.max_capture_bytes (length captured) small,
            ),
            short,
            not-false _ alike,
          )
    ]

-- The audio of a format that is known has that format.
abbrev FormatFits : Option PcmStreamFormat → PcmStreamFormat → Type 0
FormatFits none format = Unit
FormatFits (some first) format = first ≡ format

audio-injective : {a b : CapturedAudio} → Capture.audio a ≡ Capture.audio b → a ≡ b
audio-injective h = cc

audio-format :
    (format : Option PcmStreamFormat) (bytes : List ℕ) (a : CapturedAudio)
    → captured_audio format bytes ≡ Capture.audio a
    → (bytes ≡ a.bytes) × (format ≡ some a.format) × (0 < length a.bytes)
unfolding captured_audio
audio-format none bytes a h = cc
audio-format (some format) [] a h = cc
audio-format (some format) (byte ∷ bytes) a h =
    let same = audio-injective h in
    (
      ap (λ (a : CapturedAudio). a.bytes) same,
      ap (λ (a : CapturedAudio). some a.format) same,
      subst (λ (a : CapturedAudio). 0 < length a.bytes) same (omega arith),
    )

same_format-FormatFits :
    (first : Option PcmStreamFormat) (format : PcmStreamFormat)
    → same_format first format ≡ true
    → FormatFits first format
unfolding same_format
same_format-FormatFits none format h = tt
same_format-FormatFits (some first) format h =
    let (rate, channels) =
      and-true (eqb format.sample_rate_hz first.sample_rate_hz) (eqb format.channels first.channels)
        h in
    cc (
      (eqb_iff format.sample_rate_hz first.sample_rate_hz).0 rate,
      (eqb_iff format.channels first.channels).0 channels,
    )

-- The audio that comes of what is collected and what the stream still gives.
pub record Recorded (limits : CaptureLimits) (reads : List Read) (c : Collected) (a : CapturedAudio)
    : Type 0 where
  pub whole : a.bytes ≡ c.captured ++ all_bytes (chunks reads)
  pub contiguous : Contiguous a.format c.next_frame (chunks reads)
  pub same : FormatFits c.stream_format a.format
  pub small : length a.bytes ≤ limits.max_capture_bytes
  pub few : c.chunk_count + length (chunks reads) ≤ max_capture_chunks
  pub not_empty : 0 < length a.bytes

collect-Recorded :
    (limits : CaptureLimits) (target : VoiceTarget) (reads : List Read) (c : Collected)
    (a : CapturedAudio)
    → length c.captured ≤ limits.max_capture_bytes
    → c.chunk_count ≤ max_capture_chunks
    → (collect limits target reads c).0 ≡ Capture.audio a
    → Recorded limits reads c a
unfolding collect chunks all_bytes
collect-Recorded limits target [] c a small few h = cc
collect-Recorded limits target (Read.raises trouble ∷ reads) c a small few h = cc
collect-Recorded limits target (Read.ended false events ∷ reads) c a small few h = cc
collect-Recorded limits target (Read.ended true events ∷ reads) c a small few h =
    elim (Option-cases (finish_vad target c.vad events c.next_frame)) [
      | inl stopped ↦ cc (rw (stopped, collect) at h)
      | inr (seen, finished) ↦
          let (bytes, format, some_bytes) =
            audio-format c.stream_format c.captured a (rw (finished, collect) at h) in
          record {
            whole = sym bytes ∙ sym (append-nil c.captured);
            contiguous = tt;
            same = subst (λ f. FormatFits f a.format) (sym format) refl;
            small = omega (arith, small, ap length bytes);
            few = omega (arith, few);
            not_empty = some_bytes;
          }
    ]
collect-Recorded limits target (Read.gives chunk opening events ∷ reads) c a small few h =
    elim (Option-cases (add_chunk limits chunk c)) [
      | inl refused ↦ cc (rw (refused, collect) at h)
      | inr (more, taken) ↦
          let f = added limits chunk c more taken in
          elim (Option-cases
            (observe_chunk limits.provided target c.vad opening events (end_frame chunk))) [
              | inl stopped ↦ cc (rw (taken, collect, stopped) at h)
              | inr (seen, observed) ↦
                  let after = record more { vad = seen.0 } in
                  let rest =
                    collect-Recorded limits target reads after a f.6
                      (subst (λ n. n ≤ max_capture_chunks) (sym f.3) f.5)
                      (rw (taken, collect, observed) at h) in
                  let format : chunk.format ≡ a.format =
                    subst (λ s. FormatFits s a.format) f.1 rest.same in
                  record {
                    whole =
                        rest.whole
                        ∙ ap (λ bytes. bytes ++ all_bytes (chunks reads)) f.0
                        ∙ append_assoc c.captured chunk.bytes (all_bytes (chunks reads));
                    contiguous = (
                      f.4,
                      format,
                      subst (λ n. Contiguous a.format n (chunks reads)) f.2 rest.contiguous,
                    );
                    same =
                        subst (FormatFits c.stream_format) format
                          (same_format-FormatFits c.stream_format chunk.format f.8);
                    small = rest.small;
                    few = omega (arith, rest.few, f.3);
                    not_empty = rest.not_empty;
                  }
            ]
    ]

-- The audio that a capture hands on is all that the stream gave, in order and not empty: the chunks
-- have the format of the audio, the first starts at frame 0 and each one where the one before it
-- ended, and neither the bytes nor the chunks are more than their limits.
pub collect_stream-Recorded :
    (limits : CaptureLimits) (target : VoiceTarget) (cancelled : Bool) (reads : List Read)
    (a : CapturedAudio)
    → (collect_stream limits target cancelled reads).0 ≡ Capture.audio a
    → Recorded limits reads nothing_collected a
unfolding collect_stream nothing_collected
collect_stream-Recorded limits target true reads a h = cc
collect_stream-Recorded limits target false reads a h =
    collect-Recorded limits target reads nothing_collected a (omega arith) (omega arith) h
