-- ===== src/Calc/Kinds.antt =====
-- What the calculation of a response asks of the blockettes of a stage, apart from their numbers.
use evalresp.Prelude.{
  ℕ, zero, suc, ◌≡◌, refl, ap, Bool, true, not, ◌&&◌, ◌||◌, some, List, [], ◌∷◌, ◌++◌, map, arith,
}
use evalresp.Channel.{Blkt}
use evalresp.Calc.Trans.{at}
use evalresp.Calc.Fed.{is_digital, starts_decimation, is_fed}
use evalresp.Calc.Reads.{is_filled, all_filled}
use evalresp.Calc.Normalize.{set_at}

-- What the calculation for `n` frequencies asks of a blockette.
pub record Kind : Type 0 where
  pub digital : Bool
  pub decimating : Bool
  pub filled : Bool

unfoldable pub fed_kinds : List Kind → Bool
fed_kinds [] = true
fed_kinds (k ∷ []) = not k.digital
fed_kinds (k ∷ l ∷ ks) = (not k.digital || l.decimating) && fed_kinds (l ∷ ks)

unfoldable pub filled_kinds : List Kind → Bool
filled_kinds [] = true
filled_kinds (k ∷ ks) = k.filled && filled_kinds ks

pub map-++ : {A B : Type 0} (f : A → B) (a b : List A) → map f (a ++ b) ≡ map f a ++ map f b
map-++ f [] b = refl
map-++ f (x ∷ a) b = ap (λ t. f x ∷ t) (map-++ f a b)

module _ {D : Type 0} (n : ℕ) where
  abbrev pub kind : Blkt D → Kind
  kind b = record {
    digital = is_digital b;
    decimating = starts_decimation (b ∷ []);
    filled = is_filled n b;
  }

  abbrev pub kinds : List (Blkt D) → List Kind
  kinds bs = map kind bs

  head-starts :
      (c : Blkt D) (bs : List (Blkt D)) → starts_decimation (c ∷ bs) ≡ starts_decimation (c ∷ [])
  head-starts c bs = ground arith

  pub fed_kinds-kinds : (bs : List (Blkt D)) → fed_kinds (kinds bs) ≡ is_fed bs
  unfolding fed_kinds
  fed_kinds-kinds [] = refl
  fed_kinds-kinds (b ∷ []) = ground arith
  fed_kinds-kinds (b ∷ c ∷ bs) =
      let ih = fed_kinds-kinds (c ∷ bs) in
      rw (head-starts c bs) (ap (λ t. (not (is_digital b) || starts_decimation (c ∷ [])) && t) ih)

  pub filled_kinds-kinds : (bs : List (Blkt D)) → filled_kinds (kinds bs) ≡ all_filled n bs
  unfolding filled_kinds
  filled_kinds-kinds [] = refl
  filled_kinds-kinds (b ∷ bs) = ap (λ t. is_filled n b && t) (filled_kinds-kinds bs)

  pub set_at-kinds :
      (bs : List (Blkt D)) (i : ℕ) (b c : Blkt D)
      → at bs i ≡ some b
      → kind c ≡ kind b
      → kinds (set_at bs i c) ≡ kinds bs
  unfolding at set_at
  set_at-kinds [] i b c e h = refl
  set_at-kinds (x ∷ bs) zero b c e h = cc
  set_at-kinds (x ∷ bs) (suc i) b c e h = ap (λ t. kind x ∷ t) (set_at-kinds bs i b c e h)
