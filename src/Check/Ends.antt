-- ===== src/Check/Ends.antt =====
-- The loop of check_channel over the blockettes of a stage ends.
use evalresp.Prelude.{ℕ, zero, suc, ◌≤◌, List, [], ◌∷◌, arith, length}
use evalresp.Status.{Status}
use evalresp.Double.{Double}
use evalresp.Channel.{Blkt, undef_filt, fir, list, gain, reference, fir_coeffs, polynomial}
use evalresp.Merge.{merge_run, merge_lists, merge_coeffs}
use evalresp.Checked.{Checked, checked, failed, undefined, ◌>>=◌}
use evalresp.Check.Scan.{Scan, Place, handle_blkt, scan_from}

-- A status, or variables and a list of no more than `n` blockettes.
abbrev Leaves : {D : Type 0} → ℕ → Checked (Scan D × List (Blkt D)) → Type 0
Leaves n (checked (s, rest)) = length rest ≤ n
Leaves n (failed v) = Unit
Leaves n undefined = ⊥

-- A status, or variables.
abbrev Ends : {A : Type 0} → Checked A → Type 0
Ends undefined = ⊥
Ends _ = Unit

module _ {D : Type 0} where
  length-merge_run :
      (m : Blkt D → Blkt D → Status × Blkt D) (b : Blkt D) (next : List (Blkt D))
      → length (merge_run m b next).2 ≤ length next
  unfolding merge_run
  length-merge_run m b [] = omega arith
  length-merge_run m b (n ∷ next) = let ih = length-merge_run m (m b n).1 next in ground arith

  Ends-bind :
      (f : Scan D × List (Blkt D) → Checked (Scan D)) (n : ℕ) (m : Checked (Scan D × List (Blkt D)))
      → Leaves n m
      → ((s : Scan D) (rest : List (Blkt D)) → length rest ≤ n → Ends (f (s, rest)))
      → Ends (m >>= f)
  Ends-bind f n (checked (s, rest)) h k = k s rest h
  Ends-bind f n (failed v) h k = tt
  Ends-bind f n undefined h k = h

module _ {D : Type 0} ⦃d : Double D⦄ where
  handle_blkt-Leaves :
      (p : Place D) (s : Scan D) (b : Blkt D) (next : List (Blkt D))
      → Leaves (length next) (handle_blkt p s b next)
  unfolding handle_blkt
  handle_blkt-Leaves p s undef_filt next = tt
  handle_blkt-Leaves p s (fir_coeffs b) next = tt
  handle_blkt-Leaves p s (gain b) next = omega arith
  handle_blkt-Leaves p s (reference b) next = omega arith
  handle_blkt-Leaves p s (polynomial b) next = omega arith
  handle_blkt-Leaves p s (list b) next =
      let a = length-merge_run merge_lists (list b) next in ground arith
  handle_blkt-Leaves p s (fir t b) next =
      let a = length-merge_run merge_coeffs (fir t b) next in ground arith
  handle_blkt-Leaves p s b next = ground arith

  -- The loop of check_channel over the blockettes of a stage ends, with a status or with its
  -- variables, for a fuel of their number.
  scan_from-Ends :
      (p : Place D) (s : Scan D) (fuel : ℕ) (bs : List (Blkt D))
      → length bs ≤ fuel
      → Ends (scan_from fuel p s bs)
  unfolding scan_from
  scan_from-Ends p s zero [] h = tt
  scan_from-Ends p s (suc fuel) [] h = tt
  scan_from-Ends p s zero (b ∷ next) h = absurd (omega arith)
  scan_from-Ends p s (suc fuel) (b ∷ next) h =
      Ends-bind _ (length next) (handle_blkt p s b next) (handle_blkt-Leaves p s b next)
        (λ s' rest k. scan_from-Ends p s' fuel rest (omega arith))
