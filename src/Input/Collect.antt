-- ===== src/Input/Collect.antt =====
-- collect_channels of libsrc/evalresp/input.c.
use evalresp.Prelude.{ℕ, zero, suc, false, Option, List, [], ◌∷◌, ◌++◌, if◌then◌else◌, length}
use evalresp.Prelude.Int.{pos}
use evalresp.CString.{Str, is_empty}
use evalresp.Status.{eof}
use evalresp.Checked.{Checked, checked, failed, undefined}
use evalresp.RegExp.{RegExp}
use evalresp.Double.{Double}
use evalresp.Channel.{Channel, undef_filt}
use evalresp.Options.{Options}
use evalresp.Reader.{number_of_fields, find_line, read_line}
use evalresp.Input.Action.{
  Input, Action, pure, return, wild, ◌>>=◌, ◌>>◌, modify, set_stage, set_channel, set_blkt,
  set_torn, require, when, allocate, repeat, fitting, field_of, read_int, read_double, next_line,
  input_line, input_field, find_int_field, find_double_field, parse_int_field, real_of,
}
use evalresp.Input.Units.{
  parse_units, put_units, input_units, read_units_first_line_known, read_units,
}
use evalresp.Input.Filters.{
  set_sequence_no, or_par, read_complex, read_coefficient, read_pz, read_iir_coeff, read_coeff,
  read_fir, pz_type, symmetry, is_iir_coeffs,
}
use evalresp.Input.Polynomial.{read_terms, put, read_polynomial}
use evalresp.Input.Lists.{
  fields_of, peek, read_point, first_units, list_format, read_list, read_corner, read_generic,
  put_number, first_value, put_deci, read_deci, read_gain,
}
use evalresp.Input.Header.{
  reset_numbers, known_name, read_station, location_of, with_numbers, read_location, read_names,
  read_channel_header,
}
use evalresp.Input.Reference.{
  new_stage, new_blkt, set_reference, link, next_stage, read_response, read_linked, read_stage,
  begin_stage, read_stages, read_ref,
}
use evalresp.Input.Data.{
  past_eof, but_eof, whole, staged, numbered, referred, read_54, read_54_as, read_blkt, clear_stage,
  read_round, read_round_at, go_on, read_rounds, check_first_field, read_channel_data,
}
use evalresp.Input.Built.{add_blkt, add_reference}

module _ {D : Type 0} ⦃d : Double D⦄ where
  abbrev zero_d : D
  zero_d = d.of_int (pos 0)

  -- A channel as calloc leaves it.
  abbrev pub new_channel : Channel D
  new_channel = record {
    staname = [];
    network = [];
    locid = [];
    chaname = [];
    beg_t = [];
    end_t = [];
    first_units = [];
    last_units = [];
    sensit = zero_d;
    sensfreq = zero_d;
    calc_sensit = zero_d;
    calc_delay = zero_d;
    estim_delay = zero_d;
    applied_corr = zero_d;
    unit_scale_fact = zero_d;
    sint = zero_d;
    stages = [];
  }

  -- What the readers of a channel start with.
  abbrev pub from_seed : Str → Input D
  from_seed seed = record {
    seed = seed;
    channel = new_channel;
    stages = [];
    stage = new_stage;
    blkt = undef_filt;
    sequence_no = pos 0;
    torn = false;
  }

module _ {D : Type 0} where
  -- The channel that is read is added, and `next` is the rest of the loop.
  unfoldable pub add_channel :
      (Str → Str → List (Channel D) → Checked (List (Channel D)))
      → List (Channel D)
      → Checked Str × Input D
      → Checked (List (Channel D))
  add_channel next channels (checked line, s) = next s.seed line (channels ++ s.channel ∷ [])
  add_channel next channels (failed status, s) = failed status
  add_channel next channels (undefined, s) = undefined

module _ {D : Type 0} ⦃d : Double D⦄ (re : RegExp) (o : Option (Options D)) where
  -- A channel, from the line with the station on if that was read.
  unfoldable pub read_channel : Str → Action D Str
  read_channel first_line = read_channel_header re first_line >> read_channel_data re o

  -- The loop of collect_channels, with the channels that are collected so far. A failure ends it, and
  -- frees them.
  unfoldable pub collect_from : ℕ → Str → Str → List (Channel D) → Checked (List (Channel D))
  collect_from zero seed first_line channels = failed eof
  collect_from (suc fuel) seed first_line channels =
      let more =
        add_channel (collect_from fuel) channels (read_channel first_line (from_seed seed)) in
      if is_empty seed then checked channels else more

  unfoldable pub collect_channels : Str → Checked (List (Channel D))
  unfolding pure return wild ◌>>=◌ ◌>>◌ modify set_stage set_channel set_blkt set_torn require when
      allocate repeat fitting field_of read_int read_double next_line input_line input_field
      find_int_field find_double_field parse_int_field real_of parse_units put_units input_units
      read_units_first_line_known read_units set_sequence_no or_par read_complex read_coefficient
      read_pz read_iir_coeff read_coeff read_fir read_terms put read_polynomial pz_type symmetry
      is_iir_coeffs number_of_fields fields_of peek read_point first_units list_format read_list
      read_corner read_generic put_number first_value put_deci read_deci read_gain new_blkt
      set_reference link next_stage read_response read_linked read_stage begin_stage read_stages
      read_ref past_eof but_eof whole staged numbered referred read_54 read_54_as read_blkt
      clear_stage read_round read_round_at go_on read_rounds check_first_field read_channel_data
      add_blkt add_reference reset_numbers known_name read_station location_of with_numbers
      read_location read_names read_channel_header read_channel add_channel collect_from find_line
      read_line
  collect_channels seed = collect_from (suc (length seed)) seed [] []
