-- ===== src/Evaluation/Interpolate.antt =====
-- interpolate_list_blockette of libsrc/evalresp/resp_fctns.c. What interpolates is a parameter;
-- Evaluation/Cubic is the spline_interpolate that the code passes its arrays to.
use evalresp.Prelude.{
  ℕ, zero, suc, ◌+◌, ◌-◌, Bool, true, false, ◌&&◌, ◌||◌, Option, none, some, List, [], ◌∷◌,
  if◌then◌else◌, length, take, drop, reverse, ltb, leb, ◌==◌, map,
}
use evalresp.Prelude.Int.{pos, negsuc}
use evalresp.Status.{err, val}
use evalresp.Checked.{Checked, checked, failed, undefined, ◌>>=◌}
use evalresp.Double.{Double}
use evalresp.Channel.{ListInfo}
use evalresp.Calc.Trans.{at, lit}
use evalresp.Calc.Normalize.{set_at}
use evalresp.Calc.Phase.{unwrap_phase, wrap_phase}
use evalresp.Frequencies.{drop_while}

-- spline_interpolate: the abscissas and ordinates of the source, and the new abscissas.
abbrev pub Spline : Type 0 → Type 0
Spline D = List D → List D → List D → Checked (List D)

-- A read at an index of an array.
unfoldable pub read_at : {A : Type 0} → List A → ℕ → Checked A
unfolding at
read_at xs i = elim (at xs i) [ none ↦ undefined | some a ↦ checked a ]

module _ {D : Type 0} ⦃d : Double D⦄ where
  unfoldable pub out_of_range : D → D → D → Bool
  out_of_range first last f = d.lt f first || d.lt last f

  -- The last clipped frequency is within 0.0001% of the end of the list.
  unfoldable pub is_close : D → Option D → Bool
  is_close end none = false
  is_close end (some f) = d.lt (d.fabs (d.sub end f)) (d.mul end (d.decimal (pos 1) (negsuc 5)))

  -- The number of frequencies that the first loop passes over.
  unfoldable pub clipped_before : D → D → List D → ℕ
  unfolding drop_while out_of_range
  clipped_before first last freqs =
      length freqs - length (drop_while (out_of_range first last) freqs)

  -- used_req_num_freqs behind the second loop.
  unfoldable pub used_freqs : D → D → List D → ℕ
  unfolding drop_while out_of_range
  used_freqs first last freqs = length (drop_while (out_of_range first last) (reverse freqs))

  -- The requested frequencies that are in range, with those next to its ends set to the ends.
  unfoldable pub clip : D → D → List D → Checked (List D)
  unfolding clipped_before used_freqs is_close set_at at
  clip first last freqs =
      let n = clipped_before first last freqs in
      let u = used_freqs first last freqs in
      let fix_first = ltb 0 n && is_close first (at freqs (n - 1)) in
      let fix_last = ltb u (length freqs) && is_close last (at freqs u) in
      let i = if fix_first then n - 1 else n in
      let end = if fix_last then u + 1 else u in
      let used = drop i (take end freqs) in
      let used' = if fix_first then set_at used 0 first else used in
      let used'' = if fix_last then set_at used' (length used - 1) last else used' in
      if ltb 0 i && leb (length freqs) i
      then failed val
      else if leb end i
      then failed val
      else checked used''

  -- first_freq and last_freq in order
  unfoldable pub ends_of : List D → Checked (D × D)
  unfolding read_at
  ends_of freqs = do
    first ← read_at freqs 0
    last ← read_at freqs (length freqs - 1)
    checked (if d.lt last first then (last, first) else (first, last))

  unfoldable pub least_from : D → List D → D
  least_from a [] = a
  least_from a (b ∷ rest) = least_from (if d.lt b a then b else a) rest

  -- Where all amplitudes of the list are positive, a tenth of the least one for those that are not.
  unfoldable pub positive : List D → List D → Checked (List D)
  unfolding read_at least_from
  positive amps values = do
    first ← read_at amps 0
    let least : D = least_from first (drop 1 amps)
    let small : D = d.div least (lit 10)
    checked (
        if d.lt (lit 0) least
        then map (λ v. if d.le v (lit 0) then small else v) values
        else values)

  -- The phases with jumps taken out, from prev_phase and added_value on, and unwrapped_flag.
  unfoldable pub unwrapped_from : D → D → List D → List D × Bool
  unfolding unwrap_phase
  unwrapped_from prev added [] = ([], false)
  unwrapped_from prev added (old ∷ rest) =
      let (new, added') = unwrap_phase old prev (lit 360) added in
      let (more, flag) = unwrapped_from new added' rest in
      if d.eq added' (lit 0) then (old ∷ more, flag) else (new ∷ more, true)

  -- The do loops behind the test of the first phase. They do not end where the phase is infinite, or so
  -- large that 360 is lost in it; `steps` is the number of rounds that are looked at.
  unfoldable pub lowered : ℕ → D → D → Checked D
  lowered zero phase added = undefined
  lowered (suc steps) phase added =
      let added' = d.sub added (lit 360) in
      let more = lowered steps phase added' in
      if d.lt (lit 180) (d.add phase added') then more else checked added'

  unfoldable pub raised : ℕ → D → D → Checked D
  raised zero phase added = undefined
  raised (suc steps) phase added =
      let added' = d.add added (lit 360) in
      let more = raised steps phase added' in
      if d.lt (d.add phase added') (d.neg (lit 180)) then more else checked added'

  -- added_value for the first phase
  unfoldable pub offset : ℕ → D → Checked D
  unfolding lowered raised
  offset steps phase =
      if d.lt (lit 180) phase
      then lowered steps phase (lit 0)
      else if d.lt phase (d.neg (lit 180))
      then raised steps phase (lit 0)
      else checked (lit 0)

  unfoldable pub wrapped_from : D → List D → List D
  unfolding wrap_phase
  wrapped_from added [] = []
  wrapped_from added (old ∷ rest) =
      let (new, added') = wrap_phase old (lit 360) added in
      let more = wrapped_from added' rest in if d.eq added' (lit 0) then old ∷ more else new ∷ more

  unfoldable pub wrapped : ℕ → List D → Checked (List D)
  unfolding read_at offset wrapped_from
  wrapped steps phases = do
    first ← read_at phases 0
    added ← offset steps first
    checked (wrapped_from added phases)

  unfoldable pub interpolate_list_blockette :
      ℕ → Spline D → ListInfo D → List D → Checked (ListInfo D)
  unfolding ends_of clip positive unwrapped_from wrapped
  interpolate_list_blockette steps spline l req_freqs = do
    (first, last) ← ends_of l.freq
    freqs ← clip first last req_freqs
    amps ← spline l.freq l.amp freqs
    amps' ← if length amps == length freqs then positive l.amp amps else failed val
    let (local, unwrapped) : List D × Bool = unwrapped_from (lit 0) (lit 0) l.phase
    phases ← spline l.freq local freqs
    phases' ←
        if length phases == length freqs
        then (if unwrapped then wrapped steps phases else checked phases)
        else failed err
    checked (record { freq = freqs; amp = amps'; phase = phases' })
