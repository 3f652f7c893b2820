-- ===== src/Input/Reads/Stages.antt =====
-- read_ref takes its lines off the input, and gives each of its stages a blockette.
use evalresp.Prelude.{ℕ, zero, suc, ◌≢◌, arith, not, Option, List, [], ◌∷◌, ◌++◌, All, All-++, ◌==◌}
use evalresp.Prelude.Int.{ℤ}
use evalresp.CString.{Str}
use evalresp.RegExp.{RegExp}
use evalresp.Double.{Double}
use evalresp.Channel.{Refer}
use evalresp.Options.{Options}
use evalresp.Input.Action.{Input, Action, modify, set_stage, ◌>>=◌, ◌>>◌}
use evalresp.Input.Reference.{
  new_blkt, set_reference, link, next_stage, read_response, read_linked, read_stage, begin_stage,
  read_stages, read_ref,
}
use evalresp.Input.Reads.{Reads, Stocked, IsStocked, Reads-pure, Reads-then, Reads-when}
use evalresp.Input.Reads.Lines.{fields}
use evalresp.Input.Reads.Filters.{
  Reads-set_sequence_no, Reads-read_pz, Reads-read_coeff, Reads-read_fir,
}
use evalresp.Input.Reads.Lists.{
  Reads-read_list, Reads-read_generic, Reads-read_deci, Reads-read_gain,
}

pub snoc-nonempty : {A : Type 0} (xs : List A) (x : A) → xs ++ x ∷ [] ≢ []
snoc-nonempty [] x h = cc
snoc-nonempty (y ∷ xs) x h = cc

module _ {D : Type 0} where
  pub Reads-new_blkt : Reads {D = D} new_blkt
  unfolding new_blkt
  Reads-new_blkt = search fields

  -- The stage has a blockette from here on.
  set_reference-Stocked :
      (r : Refer) (s : Input D) → All IsStocked s.stages → Stocked (set_reference r s).1
  unfolding set_reference set_stage modify
  set_reference-Stocked r s h = record { stages = h; stage = λ k. cc }

  Reads-set_reference : (r : Refer) → Reads {D = D} (set_reference r)
  unfolding set_reference set_stage modify
  Reads-set_reference r = record {
    advance =
        λ s. record { shorter = omega arith; stocked = λ z. set_reference-Stocked r s z.stages };
  }

  Reads-link : Reads {D = D} link
  unfolding link modify
  Reads-link = record {
    advance = λ s. record {
      shorter = omega arith;
      stocked = λ z. record { stages = z.stages; stage = snoc-nonempty s.stage.blkts s.blkt };
    };
  }

  Reads-next_stage : Reads {D = D} next_stage
  unfolding next_stage modify
  Reads-next_stage = record {
    advance = λ s. record {
      shorter = omega arith;
      stocked = λ z. record {
        stages = All-++ IsStocked s.stages (s.stage ∷ []) z.stages (z.stage, tt);
        stage = λ k. cc;
      };
    };
  }

  then-Stocked :
      {B : Type 0} (r : Refer) (k : Action D B)
      → Reads k
      → (s : Input D) → All IsStocked s.stages
      → Stocked ((set_reference r >> k) s).1
  unfolding ◌>>◌ ◌>>=◌ set_reference set_stage modify
  then-Stocked r k h s z = (h.advance _).stocked (set_reference-Stocked r s z)

module _ {D : Type 0} ⦃d : Double D⦄ (re : RegExp) (o : Option (Options D)) where
  Reads-read_response : (b f : ℤ) (line : Str) → Reads {D = D} (read_response re o b f line)
  unfolding read_response
  Reads-read_response b f line =
      search
        (
          Reads-read_pz, Reads-read_coeff, Reads-read_fir, Reads-read_list, Reads-read_generic,
          Reads-read_deci, Reads-read_gain, fields,
        )
        depth 12

  Reads-read_linked : Reads {D = D} (read_linked re o)
  unfolding read_linked
  Reads-read_linked = search (Reads-read_response, Reads-new_blkt, Reads-link, fields) depth 8

  Reads-read_stage : (n : ℤ) → Reads {D = D} (read_stage re o n)
  unfolding read_stage
  Reads-read_stage n =
      search (Reads-read_linked, Reads-set_reference, Reads-set_sequence_no, fields) depth 12

  Reads-begin_stage : (n : ℤ) → Reads {D = D} (begin_stage re o n)
  unfolding begin_stage
  Reads-begin_stage n = search (Reads-next_stage, Reads-set_reference, fields) depth 12

  Reads-read_stages : (nstages : ℤ) (n : ℕ) → Reads {D = D} (read_stages re o nstages n)
  unfolding read_stages
  Reads-read_stages nstages zero = Reads-pure tt
  Reads-read_stages nstages (suc n) = Reads-then (Reads-read_stage nstages) (
      Reads-then (Reads-when (not (n == 0)) (Reads-begin_stage nstages))
        (Reads-read_stages nstages n))

  pub Reads-read_ref : (f : ℤ) (line : Str) → Reads {D = D} (read_ref re o f line)
  unfolding read_ref
  Reads-read_ref f line = search (Reads-set_reference, Reads-read_stages, fields) depth 12

  -- However read_ref ends, each of its stages has a blockette.
  pub read_ref-Stocked :
      (f : ℤ) (line : Str) (s : Input D)
      → All IsStocked s.stages
      → Stocked (read_ref re o f line s).1
  unfolding read_ref
  read_ref-Stocked f line s =
      then-Stocked _ _ (search (Reads-set_reference, Reads-read_stages, fields) depth 12) s
