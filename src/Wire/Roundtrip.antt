-- ===== src/Wire/Roundtrip.antt =====
-- What `encode_frame` writes, `FrameDecoder.feed` of bridge/deskhelm_protocol/wire.py reads.
use deskhelm.Prelude.{
  ℕ, ◌≡◌, refl, true, false, List, [], ◌∷◌, ◌++◌, none, some, inl, inr, Bool-cases, append_assoc,
  eqb, ltb, length, All, ap, subst, sym,
}
use deskhelm.Json.{Object, object, members-of_members}
use deskhelm.Json.Dumps.{dumps}
use deskhelm.Protocol.Fields.{ok}
use deskhelm.Wire.{
  Codec, encode_frame, decode_frame, frame_style, has_type, take_line, chomp, next_frame,
  after_frames, scan, feed, newline, carriage_return, max_frame_bytes,
}
use deskhelm.Wire.Stream.{NoLine, scan-NoLine}

-- The bytes of a frame's text.
abbrev pub text_bytes : Codec → Object → List ℕ
text_bytes codec frame = codec.encode (dumps frame_style (object frame))

-- What `json` documents of a frame: its text is read back, and has control characters only as
-- escapes; no text is read from no bytes.
pub record Faithful (codec : Codec) (frame : Object) : Type 0 where
  pub reads_back : codec.loads (text_bytes codec frame) ≡ some (object frame)
  pub no_newline : NoLine (text_bytes codec frame)
  pub no_return : All (λ b. eqb b carriage_return ≡ false) (text_bytes codec frame)
  pub reads_something : codec.loads [] ≡ none

chomp-text : (bytes : List ℕ) → All (λ b. eqb b carriage_return ≡ false) bytes → chomp bytes ≡ bytes
unfolding chomp
chomp-text [] h = refl
chomp-text (b ∷ []) h = rw (h.0) refl
chomp-text (b ∷ c ∷ bs) h = ap (λ r. b ∷ r) (chomp-text (c ∷ bs) h.1)

take_line-text :
    (codec : Codec) (frame : Object) (bytes : List ℕ)
    → bytes ≡ text_bytes codec frame
    → Faithful codec frame
    → has_type frame ≡ true
    → ltb max_frame_bytes (length bytes) ≡ false
    → take_line codec bytes ≡ ok frame
unfolding take_line decode_frame
take_line-text codec frame [] e h typed small =
    let read = subst (λ text. codec.loads text ≡ some (object frame)) (sym e) h.reads_back in
    let empty = h.reads_something in cc
take_line-text codec frame (b ∷ bs) e h typed small =
    let read = subst (λ text. codec.loads text ≡ some (object frame)) (sym e) h.reads_back in
    rw
      (
        chomp-text (b ∷ bs) (subst (All _) (sym e) h.no_return),
        small,
        decode_frame,
        read,
        members-of_members frame,
        typed,
      )
      refl

scan-line :
    (codec : Codec) (text more : List ℕ) (frame : Object)
    → NoLine text
    → take_line codec text ≡ ok frame
    → scan codec [] ((text ++ newline ∷ []) ++ more)
      ≡ after_frames (frame ∷ []) (scan codec [] more)
unfolding scan
scan-line codec text more frame h q =
    rw
      (
        append_assoc text (newline ∷ []) more,
        scan-NoLine codec [] text (newline ∷ more) h,
        q,
        next_frame,
      )
      refl

-- A decoder with an empty buffer that is fed an encoded frame, with anything after it, gives that
-- frame and then what it makes of the rest: for a frame that has a type and fits, where `json` reads
-- back the frame's text and writes it without line breaks.
pub feed-encode_frame :
    (codec : Codec) (frame : Object) (bytes more : List ℕ)
    → Faithful codec frame
    → has_type frame ≡ true
    → encode_frame codec frame ≡ ok bytes
    → feed codec [] (bytes ++ more) ≡ after_frames (frame ∷ []) (feed codec [] more)
unfolding feed encode_frame
feed-encode_frame codec frame bytes more h typed q =
    elim (Bool-cases (ltb max_frame_bytes (length (text_bytes codec frame)))) [
      | inl long ↦ cc (rw (encode_frame, long) at q)
      | inr small ↦
          subst
            (λ line. feed codec [] (line ++ more) ≡ after_frames (frame ∷ []) (feed codec [] more))
            {x = text_bytes codec frame ++ newline ∷ []} {y = bytes}
            (cc (rw (encode_frame, small) at q))
            (scan-line codec (text_bytes codec frame) more frame h.no_newline
              (take_line-text codec frame (text_bytes codec frame) refl h typed small))
    ]
