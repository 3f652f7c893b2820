-- ===== src/Input/Written/Readers.antt =====
-- The readers of the responses in a stage of a blockette 60 write what read_ref links.
use evalresp.Prelude.{ℕ, refl, Bool}
use evalresp.Prelude.Int.{ℤ}
use evalresp.CString.{Str}
use evalresp.RegExp.{RegExp}
use evalresp.Double.{Double}
use evalresp.Channel.{Decimation}
use evalresp.Options.{Options}
use evalresp.Input.Action.{
  Input, modify, input_field, find_int_field, find_double_field, parse_int_field, real_of,
}
use evalresp.Input.Lists.{put_number, put_deci}
use evalresp.Input.Written.{
  Quiet, Writes-bind, Writes-then, Writes-repeat, Writes-filled, Writes-both_filled, quiet,
}

module _ {D : Type 0} ⦃d : Double D⦄ (re : RegExp) where
  Quiet-input_field : (sep : Str) (b f : ℤ) (n : ℕ) → Quiet {D = D} (input_field re sep b f n)
  unfolding input_field
  Quiet-input_field sep b f n = search quiet

  Quiet-find_int_field : (b f : ℤ) → Quiet {D = D} (find_int_field re b f)
  unfolding find_int_field
  Quiet-find_int_field b f = search (Quiet-input_field, quiet)

  Quiet-find_double_field : (b f : ℤ) → Quiet {D = D} (find_double_field re b f)
  unfolding find_double_field
  Quiet-find_double_field b f = search (Quiet-input_field, quiet)

  Quiet-parse_int_field : (line : Str) (n : ℕ) → Quiet {D = D} (parse_int_field re line n)
  unfolding parse_int_field
  Quiet-parse_int_field line n = search quiet

  Quiet-real_of : (line : Str) (n : ℕ) → Quiet {D = D} (real_of re line n)
  unfolding real_of
  Quiet-real_of line n = search quiet

module _ {D : Type 0} where
  Quiet-put_number : (b : Bool) (n : ℤ) → Quiet {D = D} (put_number b n)
  unfolding put_number modify
  Quiet-put_number b n = search (Quiet-modify, quiet)
    where
      Quiet-modify : Quiet {D = D} (modify λ s. record s { sequence_no = n })
      Quiet-modify = record { same = λ s. refl }

  Quiet-put_deci : (x : Decimation D) → Quiet (put_deci x)
  unfolding put_deci
  Quiet-put_deci x = search quiet

ruleset quiet_fields = (
  quiet, Quiet-input_field, Quiet-find_int_field, Quiet-find_double_field, Quiet-parse_int_field,
  Quiet-real_of, Quiet-put_number, Quiet-put_deci,
)

ruleset writing = (Writes-repeat, Writes-filled, Writes-both_filled, Writes-bind, Writes-then)
