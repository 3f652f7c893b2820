-- ===== src/Frequencies.antt =====
-- The frequencies of a response (libsrc/evalresp/evaluation.c): validate_freqs,
-- calculate_default_freqs, is_block_55 and restrict_frequency_range. Allocation does not fail.
pub mod Range
pub mod Limits
use evalresp.Prelude.{
  ℕ, zero, suc, ◌+◌, Bool, true, false, not, ◌&&◌, List, [], ◌∷◌, ◌++◌, reverse, if◌then◌else◌, ltb,
}
use evalresp.Prelude.Int.{ℤ, pos, negsuc, ◌-ℤ◌, ltb_ℤ, eqb_ℤ}
use evalresp.CString.{is_empty}
use evalresp.Status.{Status, ok, inp, is_ok}
use evalresp.Double.{Double}
use evalresp.Channel.{Stage, Channel, Blkt, list}
use evalresp.Options.{Options}

module _ {D : Type 0} where
  first_is_list : List (Blkt D) → Bool
  first_is_list (list l ∷ _) = true
  first_is_list _ = false

  -- The channel is not NULL.
  unfoldable pub is_block_55 : Channel D → Bool
  unfolding first_is_list
  is_block_55 c = elim c.stages [ [] ↦ false | s ∷ _ ↦ first_is_list s.blkts ]

-- The int n of a loop bound: the rounds of `for (i = 0; i < n; ++i)`.
unfoldable pub rounds : ℤ → ℕ
rounds (pos n) = n
rounds (negsuc n) = 0

-- while (n && test (the first)) drop the first
unfoldable pub drop_while : {A : Type 0} → (A → Bool) → List A → List A
drop_while test [] = []
drop_while test (a ∷ rest) = if test a then drop_while test rest else a ∷ rest

module _ {D : Type 0} ⦃d : Double D⦄ where
  -- The limits with their defaults.
  unfoldable pub with_defaults : Options D → Options D
  with_defaults o =
      let lo =
        if d.lt o.min_freq (d.of_int (pos 0)) then d.decimal (pos 1) (pos 0) else o.min_freq in
      record o {
        min_freq = lo;
        max_freq = if d.lt o.max_freq (d.of_int (pos 0)) then lo else o.max_freq;
      }

  unfoldable pub in_order : Options D → Options D
  in_order o =
      if d.lt o.max_freq o.min_freq
      then record o { min_freq = o.max_freq; max_freq = o.min_freq }
      else o

  unfoldable pub validate_freqs : Options D → Status × Options D
  unfolding with_defaults in_order
  validate_freqs o =
      let o' = in_order (with_defaults o) in
      if not o'.lin_freq && d.eq o'.min_freq (d.of_int (pos 0))
      then (inp, o')
      else if ltb_ℤ o'.nfreq (pos 1)
      then (inp, o')
      else (ok, o')

  -- `lo + i * delta` for the numbers from `i` on.
  unfoldable pub grid : D → D → ℕ → ℕ → List D
  grid lo delta i zero = []
  grid lo delta i (suc n) = d.add lo (d.mul (d.of_int (pos i)) delta) ∷ grid lo delta (suc i) n

  unfoldable pub powers : List D → List D
  powers [] = []
  powers (x ∷ xs) = d.pow (d.of_int (pos 10)) x ∷ powers xs

  step : ℤ → D → D → D
  unfolding ◌-ℤ◌
  step n lo hi =
      if eqb_ℤ n (pos 1) then d.of_int (pos 0) else d.div (d.sub hi lo) (d.of_int (n -ℤ pos 1))

  -- The frequencies between the limits.
  unfoldable pub spaced : Options D → List D
  unfolding grid powers step rounds
  spaced o =
      let lo = if o.lin_freq then o.min_freq else d.log10 o.min_freq in
      let hi = if o.lin_freq then o.max_freq else d.log10 o.max_freq in
      let freqs = grid lo (step o.nfreq lo hi) 0 (rounds o.nfreq) in
      if o.lin_freq then freqs else powers freqs

  -- The status, the options after validate_freqs and the frequencies.
  unfoldable pub calculate_default_freqs : Options D → Status × Options D × List D
  unfolding validate_freqs spaced is_ok
  calculate_default_freqs o =
      let (status, o') = validate_freqs o in
      if is_ok status then (ok, o', spaced o') else (status, o', [])

  -- The loop from the start drops what is below `lo`, and the loop from the end what is above `hi`:
  -- the status and the frequencies that are left.
  unfoldable pub restrict_frequency_range : D → D → List D → Status × List D
  restrict_frequency_range lo hi freqs =
      let started = drop_while (λ f. d.lt f lo) freqs in
      let left = reverse (drop_while (λ f. d.lt hi f) (reverse started)) in
      (if is_empty left then inp else ok, left)
