-- ===== src/Tests/Resp.antt =====
-- A text with two channels.
use evalresp.Prelude.{
  All, arith, ◌⊎◌, ℕ, ◌≡◌, refl, Bool, true, ◌&&◌, ◌||◌, Option, none, some, List, [], ◌∷◌, ◌++◌,
  map, length, if◌then◌else◌, ◌==◌,
}
use evalresp.Prelude.Int.{ℤ, pos}
use evalresp.CString.{Str, codes, isdigit, str_eq, has_prefix}
use evalresp.RegExp.{RegExp}
use evalresp.Checked.{Ensures, Checked, checked, failed, undefined}
use evalresp.Channel.{Channel}
use evalresp.Input.Action.{Input}
use evalresp.Input.Reference.{new_stage, read_response}
use evalresp.Input.Data.{read_rounds, read_channel_data}
use evalresp.Input.Built.{unbuilt}
use evalresp.Input.Collect.{from_seed, collect_from, collect_channels}
use evalresp.Input.Reads.{IsStocked}
use evalresp.Input.Reads.Rounds.{read_rounds-fuel}
use evalresp.Input.Reads.Channels.{collect_from-fuel}
use evalresp.Input.Stocked.Collected.{collect_channels-HasBlockettes}
use evalresp.Input.Stocked.Returned.{HasBlockettes, read_channel_data-stages}
use evalresp.Tests.Whole.{whole}

number_text : Str → Bool
number_text [] = true
number_text (c ∷ s) = (isdigit c || c == b'.' || c == b'-') && number_text s

-- A matcher for numbers and for the units of velocity and of volts.
unfoldable pub resp_exec : Str → Str → Option Bool
unfolding number_text str_eq has_prefix
resp_exec pattern text =
    if has_prefix pattern (codes "^[-+]?[0-9]+")
    then some (number_text text)
    else if str_eq pattern (codes "^[CNM]?M/S|^[CNM]?M/SEC")
    then some (has_prefix text (codes "M/S"))
    else some (str_eq pattern (codes "^V[^A-Z]?") && has_prefix text (codes "V"))

abbrev pub matcher : RegExp
matcher = record { exec = resp_exec }

unfoldable pub lines : List Str → Str
lines [] = []
lines (l ∷ ls) = l ++ 10 ∷ lines ls

abbrev header_text : List Str
header_text =
    codes "# comment"
    ∷ codes "B050F03 Station: ANMO"
    ∷ codes "B050F16 Network: IU"
    ∷ codes "B052F03 Location: ??"
    ∷ codes "B052F04 Channel: BHZ"
    ∷ codes "B052F22 Start date: 2003,001"
    ∷ codes "B052F23 End date: 2004,001"
    ∷ []

abbrev poles_text : List Str
poles_text =
    codes "B053F03 Type: A"
    ∷ codes "B053F04 Stage: 1"
    ∷ codes "B053F05 Units: M/S - Velocity"
    ∷ codes "B053F06 Units: V - Volts"
    ∷ codes "B053F07 A0: 5"
    ∷ codes "B053F08 Freq: 1"
    ∷ codes "B053F09 Zeros: 1"
    ∷ codes "B053F14 Poles: 1"
    ∷ codes "B053F10-13 0 7 8 0 0"
    ∷ codes "B053F15-18 0 9 6 0 0"
    ∷ []

abbrev gain_text : List Str
gain_text =
    codes "B058F03 Stage: 1"
    ∷ codes "B058F04 Gain: 3"
    ∷ codes "B058F05 Freq: 1"
    ∷ codes "B058F06 Cals: 0"
    ∷ []

abbrev total_text : List Str
total_text =
    codes "B058F03 Stage: 0"
    ∷ codes "B058F04 Gain: 4"
    ∷ codes "B058F05 Freq: 1"
    ∷ codes "B058F06 Cals: 0"
    ∷ []

abbrev resp : Str
resp = lines (header_text ++ poles_text ++ gain_text ++ total_text ++ header_text ++ gain_text)

blkt_counts : List (Channel ℤ) → List (List (ℤ × ℕ))
blkt_counts cs = map (λ c. map (λ st. (st.sequence_no, length st.blkts)) c.stages) cs

counts_of : Checked (List (Channel ℤ)) → Option (List (List (ℤ × ℕ)))
counts_of (checked cs) = some (blkt_counts cs)
counts_of (failed s) = none
counts_of undefined = none

abbrev run : Checked (List (Channel ℤ))
run = collect_channels matcher none resp

resp_collected : counts_of run ≡ some (((pos 1, 2) ∷ (pos 0, 1) ∷ []) ∷ ((pos 1, 1) ∷ []) ∷ [])
unfolding collect_channels counts_of blkt_counts resp_exec lines
resp_collected = refl

abbrev body : Str
body = lines (poles_text ++ gain_text)

abbrev reading : Checked Str × Input ℤ
reading = read_channel_data matcher none (from_seed body)

reading_ends : reading.0 ≡ checked []
unfolding collect_channels resp_exec lines
reading_ends = refl

read_channel_data-stages_example :
    All IsStocked reading.1.channel.stages ⊎ (reading.1.channel.stages ≡ new_stage ∷ [])
read_channel_data-stages_example =
    read_channel_data-stages matcher none (from_seed body) [] reading_ends

-- The text ends within the blockette.
abbrev cut : Str
cut = lines (codes "B058F03 Stage: 1" ∷ codes "B058F04 Gain: 3" ∷ [])

cut_ends : (read_channel_data {D = ℤ} matcher none (from_seed cut)).0 ≡ checked []
unfolding collect_channels resp_exec lines
cut_ends = refl

resp_has_length : length resp ≡ 689
unfolding lines
resp_has_length = refl

collect_from-fuel_example :
    collect_from {D = ℤ} matcher none 1000 resp [] []
    ≡ collect_from {D = ℤ} matcher none 2000 resp [] []
collect_from-fuel_example =
    collect_from-fuel matcher none 1000 2000 resp [] [] (omega (arith, resp_has_length))
      (omega (arith, resp_has_length))

read_rounds-fuel_example :
    read_rounds {D = ℤ} matcher none 1000 none unbuilt (from_seed resp)
    ≡ read_rounds matcher none 2000 none unbuilt (from_seed resp)
read_rounds-fuel_example =
    read_rounds-fuel matcher none 1000 2000 none unbuilt (from_seed resp)
      (omega (arith, resp_has_length)) (omega (arith, resp_has_length))

-- Coefficients in a blockette 60.
abbrev coeff_rest : Input ℤ
coeff_rest = from_seed (
    lines (
      codes "B044F06 Units: V - Volts"
      ∷ codes "B044F07 Units: V - Volts"
      ∷ codes "B044F08 Numerators: 2"
      ∷ codes "B044F11 Denominators: 0"
      ∷ codes "B044F09-10 0 7 0"
      ∷ codes "B044F09-10 1 8 0"
      ∷ []))

coeff_read : (read_response matcher none (pos 44) (pos 5) (codes "D") coeff_rest).0 ≡ checked tt
unfolding collect_channels resp_exec lines
coeff_read = refl

collect_channels-HasBlockettes_example : Ensures (All HasBlockettes) run
collect_channels-HasBlockettes_example = collect_channels-HasBlockettes matcher none resp
