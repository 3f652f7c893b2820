-- ===== src/Input/Units.antt =====
-- parse_units and read_units of libsrc/evalresp/input.c.
use evalresp.Prelude.{ℕ, ◌+◌, Bool, true, false, ◌&&◌, ◌||◌, Option, none, some, map, if◌then◌else◌}
use evalresp.Prelude.Int.{ℤ, pos}
use evalresp.CString.{Str, codes, toupper, is_empty, has_prefix, has_prefix_nocase}
use evalresp.Checked.{Checked, checked, failed, undefined}
use evalresp.RegExp.{RegExp, regexp, reg_string_match}
use evalresp.Double.{Double}
use evalresp.Channel.{
  Units, undef_units, dis, vel, acc, counts, volts, default, pressure, tesla, centigrade, Channel,
}
use evalresp.Options.{Options, OutUnit, file}
use evalresp.Input.Action.{Action, set_stage, input_line, ◌>>=◌, ◌>>◌}

is_file_unit : OutUnit → Bool
is_file_unit file = true
is_file_unit _ = false

module _ {D : Type 0} ⦃d : Double D⦄ where
  -- The factor of a unit of length, for the first units of a channel.
  metric : Bool → Str → Channel D → Channel D
  unfolding has_prefix
  metric first line c =
      if first && has_prefix line (codes "NM")
      then record c { unit_scale_fact = d.decimal (pos 1) (pos 9) }
      else if first && has_prefix line (codes "MM")
      then record c { unit_scale_fact = d.decimal (pos 1) (pos 3) }
      else if first && has_prefix line (codes "CM")
      then record c { unit_scale_fact = d.decimal (pos 1) (pos 2) }
      else c

  -- The units that are written to the channel, and whether they are the first ones.
  name_units : Str → Channel D → Bool × Channel D
  name_units line c =
      if is_empty c.first_units
      then (true, record c { first_units = line; unit_scale_fact = d.decimal (pos 1) (pos 0) })
      else (false, record c { last_units = line })

  -- The tests on the line in upper case.
  unfoldable pub units_of : RegExp → Bool → Bool → Str → Channel D → Checked (Units × Channel D)
  unfolding metric has_prefix_nocase reg_string_match
  units_of re no_options first line c =
      let match : Str → Bool = λ pattern. reg_string_match re line pattern regexp in
      let starts : Str → Bool = λ prefix. has_prefix_nocase line prefix in
      if starts (codes "PA")
      then checked (pressure, c)
      else if starts (codes "KPA")
      then checked (pressure, record c { unit_scale_fact = d.decimal (pos 1) (pos 0) })
      else if starts (codes "T -")
      then checked (tesla, c)
      else if starts (codes "NT -")
      then checked (tesla, record c { unit_scale_fact = d.decimal (pos 1) (pos 9) })
      else if starts (codes "C -")
      then checked (centigrade, c)
      else if match (codes "^[CNM]?M/S\\*\\*2|^[CNM]?M/SEC\\*\\*2")
      then checked (acc, metric first line c)
      else if match (codes "^[CNM]?M/S|^[CNM]?M/SEC")
      then checked (vel, metric first line c)
      else if match (codes "^[CNM]?M[^A-Z/]?")
      then checked (dis, metric first line c)
      else if match (codes "^COUNTS?[^A-Z]?") || match (codes "^DIGITAL[^A-Z]?")
      then checked (counts, c)
      else if match (codes "^V[^A-Z]?") || match (codes "^VOLTS[^A-Z]?")
      then checked (volts, c)
      else if no_options
      then undefined
      else checked (undef_units, c)

  -- The status, EVALRESP_PAR for unknown units, is ignored by the callers and left out here. The
  -- options may be NULL; the message for unknown units reads them all the same.
  unfoldable pub parse_units :
      RegExp → Option (Options D) → Str → Channel D → Checked (Units × Channel D)
  unfolding units_of name_units is_file_unit
  parse_units re o line c =
      let (first, c') = name_units line c in
      let upper = map toupper line in
      elim o [
        | none ↦ units_of re true first upper c'
        | some opts ↦
            if is_file_unit opts.unit
            then checked (default, c')
            else units_of re false first upper c'
      ]

  -- The channel with its units.
  unfoldable pub put_units : Checked (Units × Channel D) → Action D Units
  put_units (checked (u, c)) s = (checked u, record s { channel = c })
  put_units (failed status) s = (failed status, s)
  put_units undefined s = (undefined, s)

  -- parse_units on the channel.
  unfoldable pub input_units : RegExp → Option (Options D) → Str → Action D Units
  unfolding put_units
  input_units re o line s = put_units (parse_units re o line s.channel) s

  -- The output units are in the next field; `fld` is its number.
  unfoldable pub read_units_first_line_known :
      RegExp → Option (Options D) → ℤ → ℤ → Str → Action D Unit
  read_units_first_line_known re o blkt_read fld line = do
    set_stage λ st. record st { input_units_str = line }
    u ← input_units re o line
    set_stage λ st. record st { input_units = u }
    line' ← input_line re (codes ":") blkt_read fld
    set_stage λ st. record st { output_units_str = line' }
    v ← input_units re o line'
    set_stage λ st. record st { output_units = v }

  -- The units are in the fields `fld` and `fld + 1`, and *check_fld goes up by 2.
  unfoldable pub read_units : RegExp → Option (Options D) → ℤ → ℕ → Action D Unit
  read_units re o blkt_read fld = do
    line ← input_line re (codes ":") blkt_read (pos fld)
    read_units_first_line_known re o blkt_read (pos (fld + 1)) line
