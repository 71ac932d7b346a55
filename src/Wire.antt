-- ===== src/Wire.antt =====
-- bridge/deskhelm_protocol/wire.py: frames of JSON, one on each line of bytes. The conversions
-- between text and bytes, and between JSON and text, are parameters.
pub mod Stream
pub mod Roundtrip
use mathlib.Core.Bool.{not}
use deskhelm.Prelude.{
  ℕ, ◌*◌, ◌≡◌, ◌≢◌, String, string_eq, Bool, true, false, ◌&&◌, List, [], ◌∷◌, ◌++◌, Option, none,
  some, ltb, eqb, length, All, ◌==◌, if◌then◌else◌,
}
use deskhelm.Json.{Json, Object, object, members}
use deskhelm.Json.Dumps.{dumps, Style}
use deskhelm.Protocol.Fields.{Result, ok, violation, ◌>>=◌, get}

abbrev pub protocol_version : ℕ
protocol_version = 2

abbrev pub max_frame_bytes : ℕ
max_frame_bytes = 1024 * 1024

abbrev pub newline : ℕ
newline = 10

abbrev pub carriage_return : ℕ
carriage_return = 13

-- `encode` stands for `str.encode("utf-8")` and `loads` for `json.loads` of `bytes.decode("utf-8")`,
-- where an exception is `none`.
pub record Codec : Type 0 where
  pub encode : String → List ℕ
  pub loads : List ℕ → Option Json

-- `ensure_ascii=False, separators=(",", ":")`
abbrev pub frame_style : Style
frame_style = record { ascii = false; item_separator = ","; key_separator = ":" }

unfoldable pub encode_frame : Codec → Object → Result (List ℕ)
unfolding dumps
encode_frame codec frame =
    let bytes = codec.encode (dumps frame_style (object frame)) in
    if ltb max_frame_bytes (length bytes) then violation else ok (bytes ++ newline ∷ [])

unfoldable pub has_type : Object → Bool
unfolding get
has_type frame = elim (get frame "type") [ Json.str name ↦ not (name == "") | _ ↦ false ]

unfoldable pub decode_frame : Codec → List ℕ → Result Object
unfolding has_type
decode_frame codec line = elim (codec.loads line) [
  | some (Json.obj ms) ↦ if not (has_type (members ms)) then violation else ok (members ms)
  | _ ↦ violation
]

-- `if line.endswith(b"\r"): line = line[:-1]`
unfoldable pub chomp : List ℕ → List ℕ
chomp [] = []
chomp (b ∷ []) = if eqb b carriage_return then [] else b ∷ []
chomp (b ∷ c ∷ bs) = b ∷ chomp (c ∷ bs)

-- A line without its newline.
unfoldable pub take_line : Codec → List ℕ → Result Object
unfolding chomp decode_frame
take_line codec raw =
    let line = chomp raw in
    if ltb max_frame_bytes (length line)
    then violation
    else elim line [ [] ↦ violation | b ∷ bs ↦ decode_frame codec (b ∷ bs) ]

-- The frames that came out, and the buffer that is left.
pub record Fed : Type 0 where
  pub frames : List Object
  pub buffer : List ℕ

unfoldable pub after_frames : List Object → Result Fed → Result Fed
after_frames frames (ok fed) = ok (record { frames = frames ++ fed.frames; buffer = fed.buffer })
after_frames frames violation = violation

unfoldable pub next_frame : Result Object → Result Fed → Result Fed
unfolding after_frames
next_frame (ok frame) rest = after_frames (frame ∷ []) rest
next_frame violation rest = violation

-- The loop of `feed`: `line` is what `find` has passed in search of a newline.
unfoldable pub scan : Codec → List ℕ → List ℕ → Result Fed
unfolding take_line next_frame
scan codec line [] =
    if ltb max_frame_bytes (length line)
    then violation
    else ok (record { frames = []; buffer = line })
scan codec line (b ∷ bs) =
    let rest = scan codec [] bs in
    let longer = scan codec (line ++ b ∷ []) bs in
    if eqb b newline then next_frame (take_line codec line) rest else longer

-- `FrameDecoder.feed`: the frames, and the buffer for the next call.
unfoldable pub feed : Codec → List ℕ → List ℕ → Result Fed
unfolding scan
feed codec buffer bytes = scan codec [] (buffer ++ bytes)
