-- ===== src/Calc/Trans.antt =====
-- Complex numbers, the units of the input, and the blockettes that are no filters of poles, zeros or
-- weights: zmul, convert_to_units, calc_polynomial, calc_list and calc_time_shift of
-- libsrc/evalresp/calc_fctns.c.
use evalresp.Prelude.{ℕ, zero, suc, not, Option, none, some, List, [], ◌∷◌, if◌then◌else◌, ◌-◌}
use evalresp.Prelude.Int.{pos, negsuc}
use evalresp.Status.{Status, ok, err, val}
use evalresp.Double.{Double}
use evalresp.Channel.{Units, dis, acc, Complex, Polynomial, ListInfo}
use evalresp.Options.{OutUnit, file, displacement, velocity, acceleration, other}

-- The element at a place, none out of range.
unfoldable pub at : {A : Type 0} → List A → ℕ → Option A
at [] i = none
at (a ∷ rest) zero = some a
at (a ∷ rest) (suc i) = at rest i

module _ {D : Type 0} ⦃d : Double D⦄ where
  -- A literal such as 2.0, and the conversion of a count.
  abbrev pub lit : ℕ → D
  lit n = d.decimal (pos n) (pos 0)

  abbrev pub num : ℕ → D
  num n = d.of_int (pos n)

  unfoldable pub zmul : Complex D → Complex D → Complex D
  zmul val1 val2 = record {
    real = d.sub (d.mul val1.real val2.real) (d.mul val1.imag val2.imag);
    imag = d.add (d.mul val1.imag val2.real) (d.mul val1.real val2.imag);
  }

  -- Multiplication by i w, and by -i / w where w is not 0.
  by_iw : D → Complex D → Complex D
  unfolding zmul
  by_iw w data_ = zmul data_ (record { real = lit 0; imag = w })

  over_iw : D → Complex D → Complex D
  unfolding zmul
  over_iw w data_ =
      if not (d.eq w (lit 0))
      then zmul data_ (record { real = lit 0; imag = d.div (d.decimal (negsuc 0) (pos 0)) w })
      else record { real = lit 0; imag = lit 0 }

  -- From the units of the input to velocity, where the output is something else.
  to_velocity : Units → D → Complex D → Complex D
  unfolding over_iw by_iw
  to_velocity dis w c = over_iw w c
  to_velocity acc w c = by_iw w c
  to_velocity _ w c = c

  unfoldable pub convert_to_units : Units → OutUnit → Complex D → D → Status × Complex D
  unfolding to_velocity by_iw over_iw
  convert_to_units inp file c w = (ok, c)
  convert_to_units inp other c w = (err, c)
  convert_to_units inp velocity c w = (ok, to_velocity inp w c)
  convert_to_units dis displacement c w = (ok, c)
  convert_to_units inp displacement c w = (ok, by_iw w (to_velocity inp w c))
  convert_to_units acc acceleration c w = (ok, c)
  convert_to_units inp acceleration c w = (ok, over_iw w (to_velocity inp w c))

  -- The loop from j = 1 on, over the coefficients from the second one on.
  derivative_from : D → D → ℕ → List D → D
  derivative_from x amp j [] = amp
  derivative_from x amp j (a ∷ rest) =
      derivative_from x (d.add amp (d.mul (d.mul a (num j)) (d.pow x (num (j - 1))))) (suc j) rest

  polar : D → D → Complex D
  polar amp phase = record { real = d.mul amp (d.cos phase); imag = d.mul amp (d.sin phase) }

  second_on : List D → List D
  second_on [] = []
  second_on (_ ∷ rest) = rest

  -- The response at x; none where it is refused.
  unfoldable pub calc_polynomial : Polynomial D → D → Status × Option (Complex D)
  unfolding derivative_from polar second_on
  calc_polynomial p x =
      let amp = derivative_from x (num 0) 1 (second_on p.coeffs) in
      if d.le x (num 0)
      then (val, none)
      else (ok, some (polar amp (if d.le (num 0) amp then num 0 else d.pi)))

  -- none where the list has no element of the number.
  unfoldable pub calc_list : ListInfo D → ℕ → Option (Complex D)
  unfolding at polar
  calc_list l i = elim (at l.amp i) [
    | none ↦ none
    | some amp ↦ elim (at l.phase i) [
      | none ↦ none
      | some phase ↦ some (polar amp (d.mul (d.div phase (num 180)) d.pi))
    ]
  ]

  unfoldable pub calc_time_shift : D → D → Complex D
  calc_time_shift delta w = record { real = d.cos (d.mul w delta); imag = d.sin (d.mul w delta) }
