-- ===== src/Calc/Filters.antt =====
-- The transfer functions of libsrc/evalresp/calc_fctns.c. Those of digital filters read the sample
-- interval from the next blockette of the stage, which they take for a decimation: `none` where it is
-- something else, or where there is no coefficient.
use evalresp.Prelude.{
  ℕ, suc, Bool, true, ◌&&◌, Option, none, some, List, [], ◌∷◌, if◌then◌else◌, ◌-◌, length,
}
use evalresp.Prelude.Int.{pos, negsuc}
use evalresp.Double.{Double}
use evalresp.Channel.{
  Complex, PoleZero, Coeff, Fir, PzType, laplace, FirType, sym_1, sym_2, asym, Blkt, decimation,
}
use evalresp.Calc.Trans.{lit, num, zmul}

-- next_ptr->blkt_info.decimation.sample_int
unfoldable pub sample_interval : {D : Type 0} → List (Blkt D) → Option D
sample_interval (decimation x ∷ _) = some x.sample_int
sample_interval _ = none

module _ {D : Type 0} ⦃d : Double D⦄ where
  -- The product of (omega - z) over the zeros, or over the poles.
  factors : Complex D → Complex D → List (Complex D) → Complex D
  unfolding zmul
  factors omega acc [] = acc
  factors omega acc (z ∷ zs) =
      factors omega
        (zmul acc (record { real = d.sub omega.real z.real; imag = d.sub omega.imag z.imag })) zs

  radians : PzType → D → D
  radians laplace freq = d.mul (d.mul (num 2) d.pi) freq
  radians _ freq = freq

  unfoldable pub analog_trans : PzType → PoleZero D → D → Complex D
  unfolding factors zmul radians
  analog_trans type p freq =
      let omega : Complex D = record { real = lit 0; imag = radians type freq } in
      let one : Complex D = record { real = lit 1; imag = lit 1 } in
      let n = factors omega one p.zeros in
      let denom = factors omega one p.poles in
      let temp = zmul (record { real = denom.real; imag = d.neg denom.imag }) n in
      let mod_squared = d.add (d.mul denom.real denom.real) (d.mul denom.imag denom.imag) in
      record {
        real = d.mul p.a0 (d.div temp.real mod_squared);
        imag = d.mul p.a0 (d.div temp.imag mod_squared);
      }

  -- R after the loop of FIR_SYM_1, and the last coefficient; none without coefficients.
  unfoldable pub sym_1_sum : D → D → List D → Option (D × D)
  sym_1_sum wsint r [] = none
  sym_1_sum wsint r (a ∷ []) = some (r, a)
  sym_1_sum wsint r (a ∷ b ∷ rest) =
      sym_1_sum wsint (d.add r (d.mul a (d.cos (d.mul wsint (num (length (b ∷ rest))))))) (b ∷ rest)

  -- R after the loop of FIR_SYM_2
  sym_2_sum : D → D → List D → D
  sym_2_sum wsint r [] = r
  sym_2_sum wsint r (a ∷ rest) =
      let half = d.decimal (pos 5) (negsuc 0) in
      sym_2_sum wsint (d.add r (d.mul a (d.cos (d.mul wsint (d.add (num (length rest)) half)))))
        rest

  unfoldable pub fir_sym_trans : FirType → Fir D → List (Blkt D) → D → Option (Complex D)
  unfolding sample_interval sym_1_sum sym_2_sum
  fir_sym_trans type f next w = elim (sample_interval next) [
    | none ↦ none
    | some sint ↦ elim type [
      | sym_1 ↦ elim (sym_1_sum (d.mul w sint) (lit 0) f.coeffs) [
        | none ↦ none
        | some (r, a) ↦
            some (record { real = d.mul (d.add a (d.mul (lit 2) r)) f.h0; imag = lit 0 })
      ]
      | sym_2 ↦ some (record {
        real = d.mul (d.mul (lit 2) (sym_2_sum (d.mul w sint) (lit 0) f.coeffs)) f.h0;
        imag = lit 0;
      })
      | asym ↦ none
    ]
  ]

  -- Whether no coefficient differs from the first.
  all_equal : D → List D → Bool
  all_equal a [] = true
  all_equal a (b ∷ rest) = d.eq b a && all_equal a rest

  -- R and I after the loop, from the number k on.
  asym_sums : D → ℕ → D → D → List D → D × D
  asym_sums wsint k r i [] = (r, i)
  asym_sums wsint k r i (a ∷ rest) =
      let y = d.mul wsint (num k) in
      asym_sums wsint (suc k) (d.add r (d.mul a (d.cos y))) (d.add i (d.mul a (d.neg (d.sin y))))
        rest

  boxcar : D → D → ℕ → D
  boxcar wsint a na =
      let half = d.div wsint (lit 2) in
      if d.eq wsint (lit 0)
      then lit 1
      else d.mul (d.div (d.sin (d.mul half (num na))) (d.sin half)) a

  unfoldable pub modulus : D → D → D
  modulus r i = d.sqrt (d.add (d.mul r r) (d.mul i i))

  unfoldable pub fir_asym_trans : Fir D → List (Blkt D) → D → Option (Complex D)
  unfolding sample_interval all_equal asym_sums boxcar modulus
  fir_asym_trans f next w = elim (sample_interval next) [
    | none ↦ none
    | some sint ↦ elim f.coeffs [
      | [] ↦ none
      | a ∷ rest ↦
          let wsint = d.mul w sint in
          let na = suc (length rest) in
          let (r, i) = asym_sums wsint 0 (lit 0) (lit 0) (a ∷ rest) in
          let mod_ = modulus r i in
          let delay = d.mul (d.mul w (d.div (num (na - 1)) (lit 2))) sint in
          let pha = d.add (d.atan2 i r) delay in
          some (
            if all_equal a rest then record { real = boxcar wsint a na; imag = lit 0 } else record {
              real = d.mul (d.mul mod_ (d.cos pha)) f.h0;
              imag = d.mul (d.mul mod_ (d.sin pha)) f.h0;
            })
    ]
  ]

  -- The phase of a factor, where that is not 0.
  factor_phase : D → D → D
  factor_phase r i = if d.eq r (lit 0) && d.eq i (lit 0) then lit 0 else d.atan2 i r

  zeros_from : D → D → D → D → List (Complex D) → D × D
  unfolding modulus factor_phase
  zeros_from c s mod_ pha [] = (mod_, pha)
  zeros_from c s mod_ pha (z ∷ zs) =
      let r = d.sub c z.real in
      let i = d.sub s z.imag in
      zeros_from c s (d.mul mod_ (modulus r i)) (d.add pha (factor_phase r i)) zs

  -- Where the factor is 0 the code adds 0.0 to the phase.
  poles_from : D → D → D → D → List (Complex D) → D × D
  unfolding modulus
  poles_from c s mod_ pha [] = (mod_, pha)
  poles_from c s mod_ pha (z ∷ zs) =
      let r = d.sub c z.real in
      let i = d.sub s z.imag in
      poles_from c s (d.div mod_ (modulus r i))
        (if d.eq r (lit 0) && d.eq i (lit 0) then d.add pha (lit 0) else d.sub pha (d.atan2 i r)) zs

  unfoldable pub iir_pz_trans : PoleZero D → List (Blkt D) → D → Option (Complex D)
  unfolding sample_interval zeros_from poles_from
  iir_pz_trans p next w = elim (sample_interval next) [
    | none ↦ none
    | some sint ↦
        let wsint = d.mul w sint in
        let c = d.cos wsint in
        let s = d.sin wsint in
        let (m0, p0) = zeros_from c s (lit 1) (lit 0) p.zeros in
        let (mod_, pha) = poles_from c s m0 p0 p.poles in
        some (record {
          real = d.mul (d.mul mod_ (d.cos pha)) p.a0;
          imag = d.mul (d.mul mod_ (d.sin pha)) p.a0;
        })
  ]

  -- xre and xim after the loop, from the number k on.
  coeff_sums : D → ℕ → D → D → List D → D × D
  coeff_sums w k xre xim [] = (xre, xim)
  coeff_sums w k xre xim (c ∷ rest) =
      let y = d.neg (d.mul (num k) w) in
      coeff_sums w (suc k) (d.add xre (d.mul c (d.cos y))) (d.add xim (d.mul c (d.sin y))) rest

  -- cn[0] + ..., none without coefficients
  coeff_sum : D → List D → Option (D × D)
  unfolding coeff_sums
  coeff_sum w [] = none
  coeff_sum w (c ∷ rest) = some (coeff_sums w 1 c (lit 0) rest)

  unfoldable pub iir_trans : Coeff D → List (Blkt D) → D → Option (Complex D)
  unfolding sample_interval coeff_sum modulus
  iir_trans b next wint = elim (sample_interval next) [
    | none ↦ none
    | some t ↦ elim (coeff_sum (d.mul wint t) b.numer) [
      | none ↦ none
      | some (nre, nim) ↦ elim (coeff_sum (d.mul wint t) b.denom) [
        | none ↦ none
        | some (dre, dim) ↦
            let amp = d.div (modulus nre nim) (modulus dre dim) in
            let phase = d.sub (d.atan2 nim nre) (d.atan2 dim dre) in
            some (record {
              real = d.mul (d.mul amp (d.cos phase)) b.h0;
              imag = d.mul (d.mul amp (d.sin phase)) b.h0;
            })
      ]
    ]
  ]
