-- ===== src/Examples/Wire.antt =====
-- A frame that is cut in the middle: bridge/deskhelm_protocol/wire.py.
use Prim.Native.Char.{code}
use deskhelm.Prelude.{
  ℕ, ◌≡◌, refl, String, string_eq, List, [], ◌∷◌, ◌++◌, Option, none, some, nat_eq, any, All, eqb,
  false, Bool-cases, inl, inr,
}
use deskhelm.Json.{Json, Object, object, members, of_members}
use deskhelm.Json.Dumps.{dumps}
use deskhelm.Wire.{Codec, Fed, encode_frame, feed, after_frames, has_type, newline, carriage_return}
use deskhelm.Wire.Stream.{feed-append}
use deskhelm.Wire.Roundtrip.{Faithful, text_bytes, feed-encode_frame}

abbrev bye : Object
bye = ("type", Json.str "bye") ∷ []

-- The code points of a text without other characters than ASCII.
abbrev codes : String → List ℕ
codes String.[] = []
codes (String.◌∷◌ c s) = code c ∷ codes s

-- Reads no other text than that of one frame.
abbrev sample_loads : List ℕ → Option Json
sample_loads [] = none
sample_loads (b ∷ bs) = some (object bye)

abbrev codec : Codec
codec = record { encode = codes; loads = sample_loads }

abbrev half : List ℕ
half = codes "{\"type\":\"bye\"}\n{\"ty"

abbrev other_half : List ℕ
other_half = codes "pe\":\"bye\"}\n"

abbrev half_fed : Fed
half_fed = record { frames = bye ∷ []; buffer = codes "{\"ty" }

feed-append_example :
    feed codec [] (half ++ other_half)
    ≡ after_frames half_fed.frames (feed codec half_fed.buffer other_half)
unfolding feed members of_members
feed-append_example = feed-append codec [] half other_half half_fed refl

lacks :
    (n : ℕ) (bytes : List ℕ) → any (λ b. eqb b n) bytes ≡ false → All (λ b. eqb b n ≡ false) bytes
unfolding any
lacks n [] h = tt
lacks n (b ∷ bytes) h = elim (Bool-cases (eqb b n)) [
  | inl here ↦ cc (rw here at h)
  | inr absent ↦ (absent, lacks n bytes (rw absent at h))
]

faithful : Faithful codec bye
unfolding dumps of_members any
faithful = record {
  reads_back = refl;
  no_newline = lacks newline (text_bytes codec bye) refl;
  no_return = lacks carriage_return (text_bytes codec bye) refl;
  reads_something = refl;
}

feed-encode_frame_example :
    feed codec [] ((text_bytes codec bye ++ newline ∷ []) ++ half)
    ≡ after_frames (bye ∷ []) (feed codec [] half)
unfolding encode_frame has_type dumps of_members
feed-encode_frame_example =
    feed-encode_frame codec bye (text_bytes codec bye ++ newline ∷ []) half faithful refl refl
