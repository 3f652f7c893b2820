-- ===== src/StationXml/Contents.antt =====
-- What parse_stage of libsrc/evalresp/stationxml2resp/xml_to_dom.c makes of the contents of a stage.
use evalresp.Prelude.{◌≡◌, ◌≢◌, refl, arith, Option, none, some, List, [], ◌∷◌, All}
use evalresp.CString.{codes}
use evalresp.Checked.{Checked, checked, ◌>>=◌, bind-checked, Ensures, Ensures-checked}
use evalresp.Double.{Double}
use evalresp.StationXml.{
  StageContent, unknown, poles_zeros, coefficients, response_list, fir, polynomial, X2rStage,
}
use evalresp.StationXml.Node.{Mxml, find_child, int_attribute}
use evalresp.StationXml.Content.{
  parse_poles_zeros, parse_coefficients, parse_response_list, parse_fir, parse_polynomial,
  parse_decimation, parse_gain,
}
use evalresp.StationXml.Document.{
  set_stage, parse_optional, parse_content, parse_contents, parse_stage,
}

set_stage-unknown : {D : Type 0} (u : StageContent D) → set_stage u ≡ checked tt → u ≡ unknown
unfolding set_stage
set_stage-unknown unknown h = refl
set_stage-unknown _ h = cc

module _ {N D : Type 0} where
  abbrev pub NoneOf : List (Option N × (N → Checked (StageContent D))) → Type 0
  NoneOf [] = Unit {0}
  NoneOf ((none, parse) ∷ rest) = NoneOf rest
  NoneOf ((some n, parse) ∷ rest) = ⊥

  -- The stage has a node of one of the kinds at most, and the content is what its parser gives.
  abbrev pub OneOf : List (Option N × (N → Checked (StageContent D))) → StageContent D → Type 0
  OneOf [] u = u ≡ unknown
  OneOf ((none, parse) ∷ rest) u = OneOf rest u
  OneOf ((some n, parse) ∷ rest) u = (parse n ≡ checked u) × NoneOf rest

  -- The blocks of parse_stage, one after the other.
  abbrev run :
      List (Option N × (N → Checked (StageContent D))) → StageContent D → Checked (StageContent D)
  run [] u = checked u
  run ((o, parse) ∷ rest) u = parse_content o parse u >>= run rest

  -- A parser gives a content of its kind.
  abbrev Sets : (N → Checked (StageContent D)) → Type 0
  Sets parse = (n : N) (u : StageContent D) → parse n ≡ checked u → u ≢ unknown

  abbrev AllSet : List (Option N × (N → Checked (StageContent D))) → Type 0
  AllSet [] = Unit {0}
  AllSet ((o, parse) ∷ rest) = Sets parse × AllSet rest

  -- A content that is set stays, and no other is there.
  run-set :
      (kinds : List (Option N × (N → Checked (StageContent D)))) (v u : StageContent D)
      → v ≢ unknown
      → run kinds v ≡ checked u
      → (u ≡ v) × NoneOf kinds
  unfolding parse_content
  run-set [] v u n h = (ground (arith, h), tt)
  run-set ((none, parse) ∷ rest) v u n h = run-set rest v u n h
  run-set ((some node, parse) ∷ rest) v u n h =
      let (w, e, k) = bind-checked (set_stage v >>= λ _. parse node) (run rest) h in
      let (x, e', k') = bind-checked (set_stage v) (λ _. parse node) e in
      absurd (n (set_stage-unknown v e'))

  run-OneOf :
      (kinds : List (Option N × (N → Checked (StageContent D)))) (u : StageContent D)
      → AllSet kinds
      → run kinds unknown ≡ checked u
      → OneOf kinds u
  unfolding parse_content set_stage
  run-OneOf [] u a h = ground (arith, h)
  run-OneOf ((none, parse) ∷ rest) u a h = run-OneOf rest u a.1 h
  run-OneOf ((some node, parse) ∷ rest) u a h =
      let (w, e, k) = bind-checked (parse node) (run rest) h in
      let (same, others) = run-set rest w u (a.0 node w e) k in (rw same e, others)

  -- What every parser ensures of its content holds of the stage's.
  pub OneOf-all :
      (P : StageContent D → Type 0) (kinds : List (Option N × (N → Checked (StageContent D))))
      (u : StageContent D)
      → P unknown
      → All (λ k. (n : N) → Ensures P (k.1 n)) kinds
      → OneOf kinds u
      → P u
  OneOf-all P [] u p a h = rw h p
  OneOf-all P ((none, parse) ∷ rest) u p a h = OneOf-all P rest u p a.1 h
  OneOf-all P ((some n, parse) ∷ rest) u p a h = Ensures-checked P (parse n) (a.0 n) h.0

module _ {N D : Type 0} ⦃m : Mxml N⦄ ⦃d : Double D⦄ where
  -- The five kinds of content that a stage may have.
  abbrev pub kinds_of : N → List (Option N × (N → Checked (StageContent D)))
  kinds_of node =
      (
        find_child node (codes "PolesZeros"),
        λ n. parse_poles_zeros n >>= λ x. checked (poles_zeros x),
      )
      ∷ (
        find_child node (codes "Coefficients"),
        λ n. parse_coefficients n >>= λ x. checked (coefficients x),
      )
      ∷ (
        find_child node (codes "ResponseList"),
        λ n. parse_response_list n >>= λ x. checked (response_list x),
      )
      ∷ (find_child node (codes "FIR"), λ n. parse_fir n >>= λ x. checked (fir x))
      ∷ (
        find_child node (codes "Polynomial"),
        λ n. parse_polynomial n >>= λ x. checked (polynomial x),
      )
      ∷ []

  kinds_of-AllSet : (node : N) → AllSet (kinds_of node)
  kinds_of-AllSet node = (
    λ n u h. let (x, e, k) = bind-checked (parse_poles_zeros n) _ h in λ z. cc,
    (
      λ n u h. let (x, e, k) = bind-checked (parse_coefficients n) _ h in λ z. cc,
      (
        λ n u h. let (x, e, k) = bind-checked (parse_response_list n) _ h in λ z. cc,
        (
          λ n u h. let (x, e, k) = bind-checked (parse_fir n) _ h in λ z. cc,
          (λ n u h. let (x, e, k) = bind-checked (parse_polynomial n) _ h in λ z. cc, tt),
        ),
      ),
    ),
  )

  pub parse_contents-OneOf :
      (node : N) (u : StageContent D) → parse_contents node ≡ checked u → OneOf (kinds_of node) u
  unfolding parse_contents
  parse_contents-OneOf node u h = run-OneOf (kinds_of node) u (kinds_of-AllSet node) h

  -- Where parse_stage succeeds, the stage has one of the five kinds of content at most, and its content
  -- is what the parser of that kind makes of the first node of the kind; with none the type is unset.
  pub parse_stage-OneOf :
      (node : N) (st : X2rStage D) → parse_stage node ≡ checked st → OneOf (kinds_of node) st.u
  unfolding parse_stage
  parse_stage-OneOf node st h =
      let (number, hn, h1) = bind-checked (int_attribute node (codes "number") none) _ h in
      let (u, hu, h2) = bind-checked (parse_contents {D = D} node) _ h1 in
      let (deci, hd, h3) =
        bind-checked
          (parse_optional (find_child node (codes "Decimation")) (parse_decimation {D = D})) _ h2 in
      let (gain, hg, h4) =
        bind-checked (parse_optional (find_child node (codes "StageGain")) (parse_gain {D = D})) _
          h3 in
      let same : u ≡ st.u = ground (arith, h4) in rw (← same) (parse_contents-OneOf node u hu)
