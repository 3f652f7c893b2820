-- ===== src/Input/Stocked.antt =====
-- The stages of a channel that read_channel_data returns have blockettes.
pub mod Result
pub mod Returned
pub mod Collected
use evalresp.Prelude.{
  ℕ, zero, suc, ◌≡◌, ◌≢◌, refl, sym, ap, arith, Bool, true, false, not, ◌&&◌, Option, none, some,
  List, [], ◌∷◌, ◌++◌, All, All-++, append_assoc, ◌⊎◌, inl, inr, Bool-cases, if◌then◌else◌, length,
}
use evalresp.Prelude.Int.{ℤ, pos, eqb_ℤ}
use evalresp.CString.{Str}
use evalresp.Status.{Status, eof, par}
use evalresp.Checked.{Checked, checked, failed, undefined, Ensures}
use evalresp.RegExp.{RegExp}
use evalresp.Double.{Double}
use evalresp.Channel.{Stage, Blkt, Channel}
use evalresp.Options.{Options}
use evalresp.Input.Action.{
  Input, Action, pure, return, wild, require, modify, set_channel, set_stage, proceed, ◌>>=◌, ◌>>◌,
}
use evalresp.Input.Reference.{new_stage, read_ref}
use evalresp.Input.Data.{
  Round, more, done, but_eof, past_eof, staged, numbered, unless_failed, referred, read_blkt,
  clear_stage, read_round_at, read_round, go_on, read_rounds, check_first_field, read_channel_data,
}
use evalresp.Input.Built.{
  Built, unbuilt, all_stages, with_blkts, place_blkt, place_units, add_blkt, to_last, add_stages,
  add_reference,
}
use evalresp.Input.Reads.{IsStocked, Stocked}
use evalresp.Input.Reads.Stages.{snoc-nonempty, read_ref-Stocked}

append-nonempty : {A : Type 0} (xs ys : List A) → xs ≢ [] → xs ++ ys ≢ []
append-nonempty [] ys h k = h refl
append-nonempty (x ∷ xs) ys h k = cc

module _ {D : Type 0} where
  -- Each stage has a blockette, or nothing was read.
  abbrev pub IsBuilt : Built D → Type 0
  IsBuilt b = All IsStocked (all_stages b) ⊎ (b ≡ unbuilt)

  All-last :
      (xs : List (Stage D)) (x : Stage D)
      → All IsStocked (xs ++ x ∷ [])
      → All IsStocked xs × IsStocked x
  All-last [] x (h, k) = (tt, h)
  All-last (y ∷ xs) x (h, k) = let (u, v) = All-last xs x k in ((h, u), v)

  -- The stages with the last one replaced by a stage that has a blockette.
  replaced :
      (b : Built D) (st : Stage D) → IsBuilt b → IsStocked st → All IsStocked (b.before ++ st ∷ [])
  replaced b st (inl h) k =
      All-++ IsStocked b.before (st ∷ []) (All-last b.before b.this_stage h).0 (k, tt)
  replaced b st (inr e) k = rw e (k, tt)

  place_units-IsStocked :
      (h : Bool) (tmp : Stage D) (b : Built D)
      → All IsStocked (all_stages b)
      → All IsStocked (all_stages (place_units h tmp b))
  unfolding place_units
  place_units-IsStocked h tmp b k =
      let (u, v) = All-last b.before b.this_stage k in
      elim (Bool-cases (b.no_units && h)) [
        | inl e ↦ rw e (All-++ IsStocked b.before _ u (v, tt))
        | inr e ↦ rw e k
      ]

  place_blkt-IsStocked :
      (n : ℤ) (x : Blkt D) (b : Built D) → IsBuilt b → All IsStocked (all_stages (place_blkt n x b))
  unfolding place_blkt
  place_blkt-IsStocked n x b h = elim (Bool-cases b.read_blkt) [
    | inl e ↦ elim (Bool-cases (eqb_ℤ b.last_seq_no n)) [
      | inl k ↦ rw (e, k) (replaced b _ h (snoc-nonempty b.this_stage.blkts x))
      | inr k ↦
          rw (e, k)
            (elim h [
              | inl s ↦ All-++ IsStocked (all_stages b) _ s ((λ z. cc), tt)
              | inr u ↦ absurd (let q : b.read_blkt ≡ false = ap (λ z. z.read_blkt) u in cc)
            ])
    ]
    | inr e ↦ rw e (replaced b _ h (λ z. cc))
  ]

  add_blkt-IsStocked :
      (h : Bool) (n : ℤ) (tmp : Stage D) (x : Blkt D) (b : Built D)
      → IsBuilt b
      → All IsStocked (all_stages (add_blkt h n tmp x b))
  unfolding add_blkt
  add_blkt-IsStocked h n tmp x b k =
      place_units-IsStocked h tmp (place_blkt n x b) (place_blkt-IsStocked n x b k)

  to_last-IsStocked :
      (before : List (Stage D)) (this : Stage D) (rest : List (Stage D))
      → All IsStocked (before ++ this ∷ [])
      → All IsStocked rest
      → All IsStocked ((to_last before this rest).0 ++ (to_last before this rest).1 ∷ [])
  unfolding to_last
  to_last-IsStocked before this [] h k = h
  to_last-IsStocked before this (next ∷ rest) h (k, l) =
      to_last-IsStocked (before ++ this ∷ []) next rest
        (All-++ IsStocked (before ++ this ∷ []) (next ∷ []) h (k, tt)) l

  add_stages-IsStocked :
      (first : Stage D) (rest : List (Stage D)) (b : Built D)
      → IsBuilt b
      → IsStocked first
      → All IsStocked rest
      → All IsStocked (all_stages (add_stages first rest b))
  unfolding add_stages
  add_stages-IsStocked first rest b h k l = elim (Bool-cases b.read_blkt) [
    | inr e ↦ rw e (to_last-IsStocked [] first rest (k, tt) l)
    | inl e ↦ elim h [
      | inr u ↦ absurd (let q : b.read_blkt ≡ false = ap (λ z. z.read_blkt) u in cc)
      | inl s ↦ elim (Bool-cases (eqb_ℤ b.last_seq_no first.sequence_no)) [
        | inl c ↦
            rw (e, c)
              (to_last-IsStocked b.before (with_blkts b.this_stage first.blkts) rest
                (replaced b _ (inl s) (
                  append-nonempty b.this_stage.blkts first.blkts
                    (All-last b.before b.this_stage s).1))
                l)
        | inr c ↦
            rw (e, c)
              (to_last-IsStocked (all_stages b) first rest
                (All-++ IsStocked (all_stages b) (first ∷ []) s (k, tt)) l)
      ]
    ]
  ]

  add_reference-IsStocked :
      (stages : List (Stage D)) (this : Stage D) (b : Built D)
      → IsBuilt b
      → All IsStocked stages
      → IsStocked this
      → All IsStocked (all_stages (add_reference stages this b))
  unfolding add_reference
  add_reference-IsStocked [] this b h k l = add_stages-IsStocked this [] b h l tt
  add_reference-IsStocked (first ∷ rest) this b h (k, m) l =
      add_stages-IsStocked first (rest ++ this ∷ []) b h k (All-++ IsStocked rest _ m (l, tt))
