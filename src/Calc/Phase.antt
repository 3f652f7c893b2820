-- ===== src/Calc/Phase.antt =====
-- unwrap_phase and wrap_phase of libsrc/evalresp/calc_fctns.c, which return the phase and the new
-- *added_value.
use evalresp.Prelude.{if◌then◌else◌}
use evalresp.Double.{Double}
use evalresp.Calc.Trans.{num}

module _ {D : Type 0} ⦃d : Double D⦄ where
  unfoldable pub unwrap_phase : D → D → D → D → D × D
  unwrap_phase phase prev_phase range added_value =
      let p = d.add phase added_value in
      if d.lt (d.div range (num 2)) (d.fabs (d.sub p prev_phase))
      then (if d.lt (num 0) (d.sub p prev_phase)
          then (d.sub p range, d.sub added_value range)
          else (d.add p range, d.add added_value range))
      else (p, added_value)

  unfoldable pub wrap_phase : D → D → D → D × D
  wrap_phase phase range added_value =
      let p = d.add phase added_value in
      if d.lt (d.div range (num 2)) p
      then (d.sub p range, d.sub added_value range)
      else if d.lt p (d.div (d.neg range) (num 2))
      then (d.add p range, d.add added_value range)
      else (p, added_value)
