-- ===== src/Merge.antt =====
-- merge_lists, merge_coeffs and check_symmetry of libsrc/evalresp/resp_fctns.c. Allocation does not
-- fail. The second blockette is freed by the code, and here it is dropped.
pub mod Symmetry
use evalresp.Prelude.{
  ℕ, zero, suc, ◌-◌, ◌/◌, ◌%◌, ◌≡◌, refl, Bool, true, false, not, ◌&&◌, ◌||◌, List, [], ◌∷◌, ◌++◌,
  map, reverse, if◌then◌else◌, ◌==◌, length, take, drop,
}
use evalresp.Prelude.Int.{ℤ, pos, negsuc}
use evalresp.CString.{is_empty}
use evalresp.Status.{Status, ok, err, is_ok}
use evalresp.Double.{Double}
use evalresp.Channel.{
  PzType, laplace, analog, iir, FirType, sym_1, sym_2, asym, Fir, ListInfo, Blkt, undef_filt,
  pole_zero, fir, list, generic, decimation, gain, reference, fir_coeffs, iir_coeffs, polynomial,
}

-- The number of a blockette's type in enum filt_types.
abbrev pub type_code : {D : Type 0} → Blkt D → ℕ
type_code undef_filt = 0
type_code (pole_zero laplace p) = 1
type_code (pole_zero analog p) = 2
type_code (pole_zero iir p) = 3
type_code (fir sym_1 f) = 4
type_code (fir sym_2 f) = 5
type_code (fir asym f) = 6
type_code (list l) = 7
type_code (generic g) = 8
type_code (decimation d) = 9
type_code (gain g) = 10
type_code (reference r) = 11
type_code (fir_coeffs f) = 12
type_code (iir_coeffs c) = 13
type_code (polynomial p) = 14

module _ {D : Type 0} where
  unfoldable pub same_type : Blkt D → Blkt D → Bool
  same_type a b = type_code a == type_code b

  unfoldable pub merge_lists : Blkt D → Blkt D → Status × Blkt D
  merge_lists (list a) (list b) = (
    ok,
    list (record { freq = a.freq ++ b.freq; amp = a.amp ++ b.amp; phase = a.phase ++ b.phase }),
  )
  merge_lists first second = (err, first)

  unfoldable pub merge_coeffs : Blkt D → Blkt D → Status × Blkt D
  unfolding same_type
  merge_coeffs (fir t a) (fir u b) =
      if same_type (fir t a) (fir u b)
      then (ok, fir t (record a { coeffs = a.coeffs ++ b.coeffs }))
      else (err, fir t a)
  merge_coeffs first second = (err, first)

  -- while (next_blkt && next_blkt->type == blkt_ptr->type) merge (blkt_ptr, &next_blkt)
  unfoldable pub merge_run :
      (Blkt D → Blkt D → Status × Blkt D) → Blkt D → List (Blkt D) → Status × Blkt D × List (Blkt D)
  unfolding same_type is_ok
  merge_run merge b [] = (ok, b, [])
  merge_run merge b (next ∷ rest) =
      let (s, merged) = merge b next in
      let more = merge_run merge merged rest in
      if same_type b next
      then (if is_ok s then more else (s, merged, next ∷ rest))
      else (ok, b, next ∷ rest)

module _ {D : Type 0} ⦃d : Double D⦄ where
  sum_from : D → List D → D
  sum_from sum [] = sum
  sum_from sum (a ∷ rest) = sum_from (d.add sum a) rest

  -- The coefficients after the test that they are normalized to 1 at frequency 0.
  unfoldable pub normalized : List D → List D
  unfolding sum_from
  normalized coeffs =
      let sum = sum_from (d.of_int (pos 0)) coeffs in
      let one = d.decimal (pos 1) (pos 0) in
      let tol = d.decimal (pos 2) (negsuc 1) in
      if not (is_empty coeffs) && (d.lt sum (d.sub one tol) || d.lt (d.add one tol) sum)
      then map (λ a. d.div a sum) coeffs
      else coeffs

  -- No element differs from the one at its place in the other list.
  unfoldable pub none_differ : List D → List D → Bool
  none_differ [] ys = true
  none_differ (x ∷ xs) [] = true
  none_differ (x ∷ xs) (y ∷ ys) = d.eq x y && none_differ xs ys

  -- The first loop compares coeffs[n0 + k] with coeffs[n0 - k - 1] from k = 0 on, the second one
  -- coeffs[n0 + k] with coeffs[n0 - k] from k = 1 on.
  fold_symmetric : Fir D → FirType × Fir D
  unfolding none_differ
  fold_symmetric f =
      let nc = length f.coeffs in
      let half = nc / 2 in
      let odd = (nc - 1) / 2 in
      if nc % 2 == 0
      then (if none_differ (drop half f.coeffs) (reverse (take half f.coeffs))
          then (sym_2, record f { coeffs = take half f.coeffs })
          else (asym, f))
      else if none_differ (drop (suc odd) f.coeffs) (reverse (take odd f.coeffs))
      then (sym_1, record f { coeffs = take (nc - odd) f.coeffs })
      else (asym, f)

  unfoldable pub check_symmetry : FirType → Fir D → FirType × Fir D
  unfolding normalized fold_symmetric
  check_symmetry asym f = fold_symmetric (record f { coeffs = normalized f.coeffs })
  check_symmetry t f = (t, record f { coeffs = normalized f.coeffs })
