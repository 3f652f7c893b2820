-- ===== src/Frequencies/Range.antt =====
-- What restrict_frequency_range of libsrc/evalresp/evaluation.c leaves.
use evalresp.Prelude.{
  ◌≡◌, refl, sym, ap, ◌∙◌, subst, Bool, true, false, List, [], ◌∷◌, ◌++◌, reverse, All, All-++, inl,
  inr, Bool-cases, if◌then◌else◌,
}
use mathlib.Core.List.{reverse-append, reverse-reverse}
use evalresp.Status.{inp, ok}
use evalresp.CString.{is_empty}
use evalresp.Double.{Double}
use evalresp.Frequencies.{drop_while, restrict_frequency_range}

-- The first element, where there is one, does not pass the test.
abbrev pub FirstNot : {A : Type 0} → (A → Bool) → List A → Type 0
FirstNot test [] = Unit
FirstNot test (a ∷ _) = test a ≡ false

-- A list is a front that passes the test, and a rest whose first element does not.
pub record Cut {A : Type 0} (test : A → Bool) (xs rest : List A) : Type 0 where
  pub front : List A
  pub split : xs ≡ front ++ rest
  pub passes : All (λ a. test a ≡ true) front
  pub stops : FirstNot test rest

drop_while-Cut : {A : Type 0} (test : A → Bool) (xs : List A) → Cut test xs (drop_while test xs)
unfolding drop_while
drop_while-Cut test [] = record { front = []; split = refl; passes = tt; stops = tt }
drop_while-Cut test (a ∷ xs) = elim (Bool-cases (test a)) [
  | inl e ↦
      let c = drop_while-Cut test xs in
      rw e (record {
        front = a ∷ c.front;
        split = ap (λ t. a ∷ t) c.split;
        passes = (e, c.passes);
        stops = c.stops;
      })
  | inr e ↦ rw e (record { front = []; split = refl; passes = tt; stops = e })
]

FirstNot-++ :
    {A : Type 0} (test : A → Bool) (xs ys : List A) → FirstNot test (xs ++ ys) → FirstNot test xs
FirstNot-++ test [] ys h = tt
FirstNot-++ test (x ∷ xs) ys h = h

All-reverse : {A : Type 0} (P : A → Type 0) (xs : List A) → All P xs → All P (reverse xs)
All-reverse P [] h = tt
All-reverse P (x ∷ xs) h =
    subst (All P) (sym (reverse-append (x ∷ []) xs))
      (All-++ P (reverse xs) (x ∷ []) (All-reverse P xs h.1) (h.0, tt))

-- `left` is what stands between the frequencies below `lo` at the start and those above `hi` at the
-- end: neither its first nor its last element is out of the range.
pub record Between {D : Type 0} ⦃d : Double D⦄ (lo hi : D) (freqs left : List D) : Type 0 where
  pub before : List D
  pub after : List D
  pub split : freqs ≡ before ++ (left ++ after)
  pub below : All (λ f. d.lt f lo ≡ true) before
  pub above : All (λ f. d.lt hi f ≡ true) after
  pub first_in : FirstNot (λ f. d.lt f lo) left
  pub last_in : FirstNot (λ f. d.lt hi f) (reverse left)

module _ {D : Type 0} ⦃d : Double D⦄ where
  -- The frequencies that restrict_frequency_range leaves are those between a run of frequencies
  -- below `lo` at the start and a run above `hi` at the end, its first one is not below `lo` and its
  -- last one not above `hi`; and the status is an error exactly where none is left.
  pub restrict_frequency_range-Between :
      (lo hi : D) (freqs : List D)
      → let r = restrict_frequency_range lo hi freqs in
        Between lo hi freqs r.1 × (r.0 ≡ (if is_empty r.1 then inp else ok))
  unfolding restrict_frequency_range
  restrict_frequency_range-Between lo hi freqs =
      let start = drop_while-Cut (λ f. d.lt f lo) freqs in
      let m = drop_while (λ f. d.lt f lo) freqs in
      let end_ = drop_while-Cut (λ f. d.lt hi f) (reverse m) in
      let kept = drop_while (λ f. d.lt hi f) (reverse m) in
      let e : m ≡ reverse kept ++ reverse end_.front =
        sym (reverse-reverse m) ∙ ap reverse end_.split ∙ reverse-append end_.front kept in
      (
        record {
          before = start.front;
          after = reverse end_.front;
          split = start.split ∙ ap (λ t. start.front ++ t) e;
          below = start.passes;
          above = All-reverse (λ f. d.lt hi f ≡ true) end_.front end_.passes;
          first_in =
              FirstNot-++ (λ f. d.lt f lo) (reverse kept) (reverse end_.front)
                (subst (FirstNot (λ f. d.lt f lo)) e start.stops);
          last_in = subst (FirstNot (λ f. d.lt hi f)) (sym (reverse-reverse kept)) end_.stops;
        },
        refl,
      )
