-- ===== src/Tests/Wire.antt =====
-- Frames and messages of a client.
use pgcluster.Prelude.{
  ℕ, String, ◌≡◌, refl, Option, none, some, List, [], ◌∷◌, ◌++◌, arith, str_eq, ◌==◌, if◌then◌else◌,
}
use pgcluster.Proxy.Wire.{
  Frame, read_frame, frame_of, write_message, parse_frontend_message, parse_bind,
  read_cstring_with_pos, read_be, bind_params, panic,
}
use pgcluster.Proxy.Wire.Frames.{read_frame-write_message}
use pgcluster.Dict.{Dict, get}
use pgcluster.Proxy.Wire.{ok}
use pgcluster.Proxy.Wire.Startup.{
  parse_startup_params, encode_params, parse_startup_params-encode_params,
}
use pgcluster.Proxy.Wire.Panics.{only_bind_panics}

read_frame-write_message_example :
    read_frame (write_message 83 (1 ∷ 2 ∷ []) ++ 7 ∷ [])
    ≡ some (record {
      msg_type = 83;
      payload = 1 ∷ 2 ∷ [];
      raw = write_message 83 (1 ∷ 2 ∷ []);
      rest = 7 ∷ [];
    })
read_frame-write_message_example = read_frame-write_message 83 (1 ∷ 2 ∷ []) (7 ∷ []) (omega arith)

abbrev stream : List ℕ
stream = 83 ∷ 0 ∷ 0 ∷ 0 ∷ 5 ∷ 9 ∷ 7 ∷ []

abbrev frame : Frame
frame = record { msg_type = 83; payload = 9 ∷ []; raw = 83 ∷ 0 ∷ 0 ∷ 0 ∷ 5 ∷ 9 ∷ []; rest = 7 ∷ [] }

reads_frame : read_frame stream ≡ some frame
unfolding read_frame frame_of
reads_frame = refl

-- Two empty names, no formats, and one parameter of five bytes that are missing.
abbrev short_bind : List ℕ
short_bind = 0 ∷ 0 ∷ 0 ∷ 0 ∷ 0 ∷ 1 ∷ 0 ∷ 0 ∷ 0 ∷ 5 ∷ []

abbrev ascii : List ℕ → Option String
ascii bytes = some ""

short_bind_panics : parse_frontend_message ascii 66 short_bind ≡ panic
unfolding parse_frontend_message parse_bind read_cstring_with_pos read_be bind_params
short_bind_panics = refl

only_bind_panics_example : ◌≡◌ {A = ℕ} 66 66
only_bind_panics_example = only_bind_panics ascii 66 short_bind short_bind_panics

-- Two strings, and their bytes.
abbrev bytes : String → List ℕ
bytes s = if str_eq s "user" then 117 ∷ [] else 98 ∷ []

abbrev utf8 : List ℕ → Option String
utf8 [] = none
utf8 (b ∷ bs) = if b == 117 then some "user" else some "bob"

abbrev params : Dict String
params = ("user", "bob") ∷ []

parse_startup_params-encode_params_example :
    (read : Dict String) × (parse_startup_params utf8 (encode_params bytes params) ≡ ok read)
    × ((key : String) → get read key ≡ get params key)
parse_startup_params-encode_params_example =
    parse_startup_params-encode_params utf8 bytes params (refl, tt)
      (((λ e. absurd (omega arith), tt), (λ e. absurd (omega arith), tt), λ e. cc, refl, refl), tt)
