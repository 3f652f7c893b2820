-- ===== src/Evaluation/Answers.antt =====
-- What evalresp_channel_to_response and evalresp_channels_to_responses answer.
use evalresp.Prelude.{
  ℕ, suc, ◌≤◌, ◌≡◌, refl, ap, arith, true, false, none, some, List, [], ◌∷◌, length, Bool-cases,
  inl, inr,
}
use evalresp.Status.{Status, is_ok}
use evalresp.Checked.{
  Checked, checked, failed, undefined, Ensures, Ensures-bind, Ensures-any, ◌>>=◌,
}
use evalresp.Double.{Double}
use evalresp.Channel.{Channel, ListInfo}
use evalresp.Options.{Options}
use evalresp.Frequencies.{is_block_55, calculate_default_freqs}
use evalresp.Calc.Respond.{response_at, responses_from, calculate_response}
use evalresp.Calc.Sensitivity.{normalize_response}
use evalresp.Evaluation.{
  Response, Evaluated, Prepared, list_of, ok_then, interpolate_b55, use_b55_freqs, prepare,
  with_names, evalresp_channel_to_response, evalresp_channels_to_responses, add_response,
}
use evalresp.Evaluation.Interpolate.{Spline}

module _ {D : Type 0} ⦃d : Double D⦄ where
  responses_from-length :
      (o : Options D) (c : Channel D) (i : ℕ) (freqs : List D)
      → Ensures (λ rvec. length rvec ≡ length freqs) (responses_from o c i freqs)
  unfolding responses_from
  responses_from-length o c i [] = refl
  responses_from-length o c i (f ∷ freqs) =
      Ensures-bind (λ z. Unit {0}) _ (response_at o c i f) _ (Ensures-any (response_at o c i f))
        λ z u.
          Ensures-bind (λ rvec. length rvec ≡ length freqs) _ (responses_from o c (suc i) freqs) _
            (responses_from-length o c (suc i) freqs) λ rest e. ap suc e

module _ {D : Type 0} ⦃d : Double D⦄ (steps : ℕ) (spline : Spline D) where
  Ensures-all : {A : Type 0} (P : A → Type 0) (m : Checked A) → ((a : A) → P a) → Ensures P m
  Ensures-all P (checked a) h = h a
  Ensures-all P (failed status) h = tt
  Ensures-all P undefined h = tt

  listed :
      (m : Checked (ListInfo D)) (c : Channel D) (grid : List D)
      → Ensures
          (λ (p : Prepared D).
            (true ≡ false → p.freqs ≡ grid)
            × (true ≡ true → false ≡ false → Ensures (λ l. p.freqs ≡ l.freq) m))
          (m >>= λ l. checked (record { freqs = l.freq; channel = c; b55_save = none }))
  listed (checked l) c grid = (λ u. absurd cc, λ u v. refl)
  listed (failed status) c grid = tt
  listed undefined c grid = tt

  -- The frequencies are `grid`, or with a blockette 55 that is not interpolated those of its list.
  abbrev pub AreFreqs : Options D → Channel D → List D → List D → Type 0
  AreFreqs o c grid freqs =
      (is_block_55 c ≡ false → freqs ≡ grid)
      × (is_block_55 c ≡ true
          → o.b55_interpolate ≡ false
          → Ensures (λ l. freqs ≡ l.freq) (list_of c.stages))

  prepare-AreFreqs :
      (o : Options D) (c : Channel D) (grid : List D)
      → Ensures (λ p. AreFreqs o c grid p.freqs) (prepare steps spline o c grid)
  unfolding prepare use_b55_freqs
  prepare-AreFreqs o c grid = elim (Bool-cases (is_block_55 c)) [
    | inr e ↦ rw e (λ u. refl, λ u v. absurd cc)
    | inl e ↦ elim (Bool-cases o.b55_interpolate) [
      | inl k ↦
          rw (e, k)
            (Ensures-all _ (interpolate_b55 steps spline c grid)
              λ p. (λ u. absurd cc, λ u v. absurd cc))
      | inr k ↦ rw (e, k) (listed (list_of c.stages) c grid)
    ]
  ]

  ok_then-same : {A : Type 0} (status : Status) (a : A) → Ensures (λ b. b ≡ a) (ok_then status a)
  unfolding ok_then
  ok_then-same status a = elim (Bool-cases (is_ok status)) [ inl e ↦ rw e refl | inr e ↦ rw e tt ]

  -- A response has a value for each of its frequencies, in a channel whose first blockette is no
  -- response list they are those that calculate_default_freqs gives, and with a response list that is
  -- not interpolated those of the list. The options are those that calculate_default_freqs leaves.
  pub evalresp_channel_to_response-AreFreqs :
      (o : Options D) (c : Channel D)
      → Ensures
          (λ e.
            (length e.response.rvec ≡ length e.response.freqs)
            × (e.options ≡ (calculate_default_freqs o).1)
            × AreFreqs e.options c (calculate_default_freqs o).2 e.response.freqs)
          (evalresp_channel_to_response steps spline (some o) c)
  unfolding evalresp_channel_to_response with_names calculate_response
  evalresp_channel_to_response-AreFreqs o c =
      let (status, o', grid) = calculate_default_freqs o in
      Ensures-bind (λ b. b ≡ grid) _ (ok_then status grid) _ (ok_then-same status grid)
        λ freqs e.
          Ensures-bind (λ p. AreFreqs o' c grid p.freqs) _ (prepare steps spline o' c freqs) _
            (rw e (prepare-AreFreqs o' c grid))
            λ p h.
              Ensures-bind (λ z. Unit {0}) _ (normalize_response o' p.channel) _
                (Ensures-any (normalize_response o' p.channel))
                λ c' u.
                  Ensures-bind (λ rvec. length rvec ≡ length p.freqs) _
                    (calculate_response o' c' p.freqs) _ (responses_from-length o' c' 0 p.freqs)
                    λ rvec k. (k, refl, h)

  add_response-length :
      (n : ℕ) (next : Options D → List (Response D) × Checked (Unit {0}))
      (r : Checked (Evaluated D))
      → ((o : Options D)
          → (length (next o).0 ≤ n) × ((next o).1 ≡ checked tt → length (next o).0 ≡ n))
      → (length (add_response next r).0 ≤ suc n)
        × ((add_response next r).1 ≡ checked tt → length (add_response next r).0 ≡ suc n)
  unfolding add_response
  add_response-length n next (checked e) h =
      let (u, v) = h e.options in (omega (arith, u), λ k. ap suc (v k))
  add_response-length n next (failed status) h = (omega arith, λ k. absurd cc)
  add_response-length n next undefined h = (omega arith, λ k. absurd cc)

  -- There is a response for each channel where evalresp_channels_to_responses succeeds, and there are
  -- never more.
  pub evalresp_channels_to_responses-length :
      (o : Options D) (cs : List (Channel D))
      → (length (evalresp_channels_to_responses steps spline o cs).0 ≤ length cs)
        × ((evalresp_channels_to_responses steps spline o cs).1 ≡ checked tt
            → length (evalresp_channels_to_responses steps spline o cs).0 ≡ length cs)
  unfolding evalresp_channels_to_responses
  evalresp_channels_to_responses-length o [] = (omega arith, λ k. refl)
  evalresp_channels_to_responses-length o (c ∷ cs) =
      add_response-length (length cs) _ (evalresp_channel_to_response steps spline (some o) c)
        λ o'. evalresp_channels_to_responses-length o' cs
