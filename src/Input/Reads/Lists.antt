-- ===== src/Input/Reads/Lists.antt =====
-- The readers of lists, corners, decimations and gains only take lines off the input.
use evalresp.Prelude.{Bool, true, false, Option}
use evalresp.Prelude.Int.{ℤ}
use evalresp.CString.{Str}
use evalresp.RegExp.{RegExp}
use evalresp.Double.{Double}
use evalresp.Channel.{Decimation}
use evalresp.Options.{Options}
use evalresp.Input.Action.{Action, modify, when}
use evalresp.Input.Lists.{
  fields_of, peek, read_point, first_units, list_format, read_list, read_corner, read_generic,
  put_number, first_value, put_deci, read_deci, read_gain,
}
use evalresp.Input.Reads.{Reads, Advance-seed, Advance-refl}
use evalresp.Input.Reads.Lines.{fields}
use evalresp.Input.Reads.Filters.{Reads-set_sequence_no, Reads-read_units_first_line_known}
use evalresp.Prelude.{arith, refl}

module _ {D : Type 0} where
  Reads-fields_of : (line : Str) → Reads {D = D} (fields_of line)
  unfolding fields_of
  Reads-fields_of line = record { advance = λ s. Advance-refl s }

  Reads-peek : {A : Type 0} (m : Action D A) → Reads m → Reads (peek m)
  unfolding peek
  Reads-peek m h = record {
    advance = λ s. record {
      shorter = omega arith;
      stocked = λ z. record {
        stages = ((h.advance s).stocked z).stages;
        stage = ((h.advance s).stocked z).stage;
      };
    };
  }

  Reads-put_number : (b : Bool) (n : ℤ) → Reads {D = D} (put_number b n)
  unfolding put_number modify when
  Reads-put_number true n = record { advance = λ s. Advance-seed s _ (omega arith) refl refl }
  Reads-put_number false n = record { advance = λ s. Advance-seed s _ (omega arith) refl refl }

  Reads-put_deci : (x : Decimation D) → Reads (put_deci x)
  unfolding put_deci
  Reads-put_deci x = search fields

ruleset numbers = (
  fields, Reads-fields_of, Reads-peek, Reads-put_number, Reads-put_deci, Reads-set_sequence_no,
  Reads-read_units_first_line_known,
)

module _ {D : Type 0} ⦃d : Double D⦄ (re : RegExp) where
  Reads-read_point : (b f format : ℤ) → Reads {D = D} (read_point re b f format)
  unfolding read_point
  Reads-read_point b f format = search numbers depth 12

  Reads-first_units : (b f : ℤ) (line : Str) → Reads {D = D} (first_units re b f line)
  unfolding first_units
  Reads-first_units b f line = search numbers depth 12

  Reads-list_format : (b f : ℤ) → Reads {D = D} (list_format re b f)
  unfolding list_format
  Reads-list_format b f = search numbers depth 12

  Reads-read_corner : (b f : ℤ) → Reads {D = D} (read_corner re b f)
  unfolding read_corner
  Reads-read_corner b f = search numbers depth 12

  Reads-first_value : (n : Bool) (b f : ℤ) (line : Str) → Reads {D = D} (first_value re n b f line)
  unfolding first_value
  Reads-first_value n b f line = search numbers depth 12

  pub Reads-read_deci : (n : Bool) (f : ℤ) (line : Str) → Reads {D = D} (read_deci re n f line)
  unfolding read_deci
  Reads-read_deci n f line = search (Reads-first_value, numbers) depth 60 fits 4000

  pub Reads-read_gain : (n : Bool) (f : ℤ) (line : Str) → Reads {D = D} (read_gain re n f line)
  unfolding read_gain
  Reads-read_gain n f line = search (Reads-first_value, numbers) depth 60 fits 4000

ruleset columns =
    (numbers, Reads-read_point, Reads-first_units, Reads-list_format, Reads-read_corner)

module _ {D : Type 0} ⦃d : Double D⦄ (re : RegExp) (o : Option (Options D)) (f : ℤ)
    (line : Str) where
  pub Reads-read_list : Reads {D = D} (read_list re o f line)
  unfolding read_list
  Reads-read_list = search columns depth 60 fits 4000

  pub Reads-read_generic : Reads {D = D} (read_generic re o f line)
  unfolding read_generic
  Reads-read_generic = search columns depth 60 fits 4000
