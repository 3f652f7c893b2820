-- ===== src/Input/File.antt =====
-- The functions of libsrc/evalresp/input.c that read channels from a file: file_to_char,
-- evalresp_file_to_channels, evalresp_file_detect_stationxml and evalresp_filename_to_channels.
use evalresp.Prelude.{
  ℕ, zero, suc, ◌+◌, ◌-◌, ◌*◌, ◌≤◌, ◌<◌, ◌≡◌, refl, arith, Bool, true, false, inl, inr, Option,
  none, some, [], ◌∷◌, ◌++◌, append_assoc, take-append-drop, length-take, length-drop,
  length-append, ltb, ltb→lt, leb, ◌==◌, if◌then◌else◌, length, take, drop, Bool-cases, ◌∙◌, ap,
}
use evalresp.CString.{Str, codes, strstr}
use evalresp.Status.{io}
use evalresp.Checked.{Checked, failed, undefined, ◌>>=◌}
use evalresp.RegExp.{RegExp}
use evalresp.Double.{Double}
use evalresp.DateTime.{Calendar}
use evalresp.Filter.{Filter}
use evalresp.Selection.{Selected}
use evalresp.Check.Scan.{is_some}
use evalresp.Options.{Options}
use evalresp.Input.Entry.{evalresp_char_to_channels}
use evalresp.StationXml.Node.{Mxml, Clock}
use evalresp.StationXml.Print.{Printf}
use evalresp.StationXml.Convert.{evalresp_xml_stream_to_resp_file}

-- The bytes before the first NUL.
unfoldable pub c_string : Str → Str
c_string [] = []
c_string (c ∷ s) = let rest = c_string s in if c == 0 then [] else c ∷ rest

-- The buffer of file_to_char: its length and the bytes that are read.
pub record Buffer : Type 0 where
  pub buffer_len : ℕ
  pub used : Str

-- The buffer is doubled where it is full.
unfoldable pub grown : Buffer → ℕ
grown b = if (b.buffer_len - length b.used) == 0 then b.buffer_len * 2 else b.buffer_len

-- The loop of file_to_char. fread takes what there is for the space, and less of it sets feof.
unfoldable pub fill : ℕ → Buffer → Str → Option Buffer
unfolding grown
fill zero b file = none
fill (suc fuel) b file =
    let len = grown b in
    let space = len - length b.used in
    let b' : Buffer = record { buffer_len = len; used = b.used ++ take space file } in
    let more = fill fuel b' (drop space file) in if ltb (length file) space then some b' else more

-- The byte for the NUL behind the loop.
unfoldable pub with_nul : Buffer → Buffer
with_nul b = record b {
  buffer_len = if length b.used == b.buffer_len then b.buffer_len + 1 else b.buffer_len;
}

-- *seed, as a string. A round reads a byte or ends; none is where the fuel runs out.
unfoldable pub file_to_char : Str → Option Buffer
file_to_char file = elim (fill (suc (length file)) (record { buffer_len = 1024; used = [] }) file) [
  | none ↦ none
  | some b ↦ some (with_nul b)
]

-- -1, as none, where fewer bytes than the buffer has are read. The last byte is overwritten.
unfoldable pub evalresp_file_detect_stationxml : Str → Option Bool
unfolding c_string strstr
evalresp_file_detect_stationxml file =
    if leb 255 (length file)
    then some (is_some (strstr (c_string (take 254 file)) (codes "<FDSNStationXML")))
    else none

module _ {D : Type 0} ⦃d : Double D⦄ (re : RegExp) (cal : Calendar) where
  unfoldable pub evalresp_file_to_channels :
      Option (Options D) → Option (Filter D) → Str → Checked (Selected D)
  unfolding file_to_char fill with_nul c_string evalresp_char_to_channels
  evalresp_file_to_channels o filter file = elim (file_to_char file) [
    | none ↦ undefined
    | some b ↦ evalresp_char_to_channels re o cal (c_string b.used) filter
  ]

-- Whether the file is converted: the option, or what is detected where it is not set.
unfoldable pub is_station_xml : {D : Type 0} → Option (Options D) → Str → Bool
unfolding evalresp_file_detect_stationxml
is_station_xml none file = false
is_station_xml (some o) file =
    if o.station_xml
    then true
    else elim (evalresp_file_detect_stationxml file) [ none ↦ false | some b ↦ b ]

module _ {N D : Type 0} ⦃d : Double D⦄ (re : RegExp) (cal : Calendar) (m : Mxml N) (clock : Clock)
    (pf : Printf D) where
  -- The contents of the file, where it can be opened.
  unfoldable pub evalresp_filename_to_channels :
      Option (Options D) → Option (Filter D) → Option Str → Checked (Selected D)
  unfolding is_station_xml evalresp_xml_stream_to_resp_file evalresp_file_to_channels
  evalresp_filename_to_channels o filter none = failed io
  evalresp_filename_to_channels o filter (some file) = do
    temp_file ← evalresp_xml_stream_to_resp_file m clock pf (is_station_xml o file) (some file)
    let read : Str = elim temp_file [ none ↦ file | some resp ↦ resp ]
    evalresp_file_to_channels re cal o filter read

take-all : (n : ℕ) (s : Str) → length s ≤ n → take n s ≡ s
take-all zero [] h = refl
take-all zero (c ∷ s) h = absurd (omega arith)
take-all (suc n) [] h = refl
take-all (suc n) (c ∷ s) h = ap (λ t. c ∷ t) (take-all n s (omega arith))

-- There is always space.
grown_lem :
    (b : Buffer)
    → length b.used ≤ b.buffer_len
    → 0 < b.buffer_len
    → (length b.used < grown b) × (b.buffer_len ≤ grown b)
unfolding grown
grown_lem b k l = ground arith

-- The loop ends with the whole file in the buffer.
fill_lem :
    (fuel : ℕ) (b : Buffer) (file : Str)
    → length file < fuel
    → length b.used ≤ b.buffer_len
    → 0 < b.buffer_len
    → (r : Buffer) × (fill fuel b file ≡ some r)
      × (r.used ≡ b.used ++ file)
      × (length r.used ≤ r.buffer_len)
unfolding fill
fill_lem zero b file h k l = absurd (omega arith)
fill_lem (suc fuel) b file h k l =
    let len = grown b in
    let space = len - length b.used in
    let b' : Buffer = record { buffer_len = len; used = b.used ++ take space file } in
    let (room, more) = grown_lem b k l in
    let size = length-append b.used (take space file) in
    let cut = length-take space file in
    elim (Bool-cases (ltb (length file) space)) [
      | inl e ↦
          let whole = take-all space file (omega (arith, ltb→lt _ _ e)) in
          (b', rw e refl, ap (λ t. b.used ++ t) whole, omega (arith, size, cut, room))
      | inr e ↦
          let (r, f, u, s) =
            fill_lem fuel b' (drop space file) (ground (arith, e, length-drop space file, room, h))
              (omega (arith, size, cut, room)) (omega (arith, more, l)) in
          (
            r,
            rw e f,
            u
                ∙ append_assoc b.used (take space file) (drop space file)
                ∙ ap (λ t. b.used ++ t) (take-append-drop space file),
            s,
          )
    ]

with_nul_lem :
    (b : Buffer)
    → length b.used ≤ b.buffer_len
    → ((with_nul b).used ≡ b.used) × (length b.used < (with_nul b).buffer_len)
unfolding with_nul
with_nul_lem b s = (refl, ground arith)

from_fill :
    (file : Str) (r : Buffer)
    → fill (suc (length file)) (record { buffer_len = 1024; used = [] }) file ≡ some r
    → file_to_char file ≡ some (with_nul r)
unfolding file_to_char
from_fill file r e = rw (file_to_char, e) refl

-- file_to_char reads the whole file, and its buffer has room for the NUL.
pub file_to_char_lem :
    (file : Str)
    → (b : Buffer) × (file_to_char file ≡ some b) × (b.used ≡ file) × (length b.used < b.buffer_len)
file_to_char_lem file =
    let (r, e, u, s) =
      fill_lem (suc (length file)) (record { buffer_len = 1024; used = [] }) file (omega arith)
        (omega arith) (omega arith) in
    let (same, room) = with_nul_lem r s in (with_nul r, from_fill file r e, same ∙ u, rw same room)
