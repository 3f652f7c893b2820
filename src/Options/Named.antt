-- ===== src/Options/Named.antt =====
-- The strings that evalresp_set_unit takes.
use evalresp.Prelude.{
  ◌≡◌, refl, ap, subst, true, false, Option, none, some, List, [], ◌∷◌, map, ◌⊎◌, inl, inr,
  Bool-cases,
}
use evalresp.CString.{Str, str_eq, toupper}
use evalresp.CString.Search.{str_eq_refl, str_eq→eq}
use evalresp.Status.{Status, ok, inp}
use evalresp.Options.{Options, OutUnit}
use evalresp.Options.Set.{find_option, units, evalresp_set_unit}

-- The name stands in a table, for `a`.
pub data Named {A : Type 0} (name : Str) : List (A × Str) → A → Type 0 where
  here : (a : A) (rest : List (A × Str)) → Named name ((a, name) ∷ rest) a
  there :
      (x : A × Str) (rest : List (A × Str)) (a : A) → Named name rest a → Named name (x ∷ rest) a

module _ {A : Type 0} where
  unlisted : (name : Str) (a : A) → ¬ Named name [] a
  unlisted name a h = elim h [ ]

  not_head :
      (x : A) (str name : Str) (rest : List (A × Str))
      → str_eq str name ≡ false
      → ((a : A) → ¬ Named name rest a)
      → (a : A) → ¬ Named name ((x, str) ∷ rest) a
  not_head x str name rest k h a (here _ _) =
      let e : str_eq name name ≡ true = str_eq_refl name in absurd cc
  not_head x str name rest k h a (there _ _ _ g) = h a g

  find_option-Named :
      (table : List (A × Str)) (name : Str)
      → ((a : A) × (find_option table name ≡ some a) × Named name table a)
        ⊎ ((find_option table name ≡ none) × ((a : A) → ¬ Named name table a))
  unfolding find_option
  find_option-Named [] name = inr (refl, unlisted name)
  find_option-Named ((x, str) ∷ rest) name = elim (find_option-Named rest name) [
    | inl (a, e, h) ↦ inl (a, rw e refl, there (x, str) rest a h)
    | inr (e, h) ↦ elim (Bool-cases (str_eq str name)) [
      | inl k ↦ inl (
        x,
        rw (e, k) refl,
        subst (λ z. Named z ((x, str) ∷ rest) x) (str_eq→eq str name k) (here x rest),
      )
      | inr k ↦ inr (rw (e, k) refl, not_head x str name rest k h)
    ]
  ]

-- evalresp_set_unit sets the unit that its table has for the string in upper case, and where the table
-- has none it fails with EVALRESP_INP and leaves the options as they are.
pub evalresp_set_unit-Named :
    {D : Type 0} (o : Options D) (unit : Str)
    → ((u : OutUnit) × (evalresp_set_unit o unit ≡ (ok, record o { unit = u }))
        × Named (map toupper unit) units u)
      ⊎ ((evalresp_set_unit o unit ≡ (inp, o))
          × ((u : OutUnit) → ¬ Named (map toupper unit) units u))
unfolding evalresp_set_unit
evalresp_set_unit-Named {D} o unit =
    let set : Option OutUnit → Status × Options D =
      λ m. elim m [ none ↦ (inp, o) | some u ↦ (ok, record o { unit = u }) ] in
    elim (find_option-Named units (map toupper unit)) [
      | inl (u, e, h) ↦ inl (u, ap set e, h)
      | inr (e, h) ↦ inr (ap set e, h)
    ]
