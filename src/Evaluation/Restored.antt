-- ===== src/Evaluation/Restored.antt =====
-- evalresp_channel_to_response gives back the response list of a channel that it interpolates.
use evalresp.Prelude.{
  ℕ, ◌≡◌, ◌≢◌, refl, ap, Bool, true, false, some, List, [], ◌∷◌, ◌++◌, length, if◌then◌else◌, ◌==◌,
  ◌-◌, Bool-cases, inl, inr,
}
use evalresp.Status.{Status, val}
use evalresp.Checked.{Checked, checked, failed, undefined, Ensures, Ensures-bind, Ensures-any}
use evalresp.Double.{Double}
use evalresp.Channel.{Channel, Stage, Blkt, ListInfo}
use evalresp.Options.{Options}
use evalresp.Frequencies.{is_block_55, calculate_default_freqs, restrict_frequency_range}
use evalresp.Calc.Normalize.{lacks_gain, with_gain, require_gain, any_zero_gain}
use evalresp.Calc.Sensitivity.{norm_stages, with_sensfreq, normalize_gains, normalize_response}
use evalresp.Calc.Respond.{calculate_response}
use evalresp.Calc.Kinds.{kinds}
use evalresp.Calc.Kept.{stage_kinds, norm_stages-kinds}
use evalresp.Evaluation.{
  Prepared, list_of, list_of_stage, put_list, put_list_in, restore_b55, ok_then, interpolate_b55,
  prepare, evalresp_channel_to_response,
}
use evalresp.Evaluation.Interpolate.{Spline, read_at, interpolate_list_blockette}

Ensures-is : {A : Type 0} (m : Checked A) → Ensures (λ a. m ≡ checked a) m
Ensures-is (checked a) = refl
Ensures-is (failed status) = tt
Ensures-is undefined = tt

module _ {D : Type 0} where
  -- The first stage has a blockette.
  abbrev pub Begins : List (Stage D) → Type 0
  Begins [] = ⊥
  Begins (st ∷ rest) = st.blkts ≢ []

  in_place :
      (l : ListInfo D) (bs : List (Blkt D)) → bs ≢ [] → list_of_stage (put_list_in l bs) ≡ checked l
  unfolding list_of_stage put_list_in
  in_place l [] h = absurd (h refl)
  in_place l (b ∷ rest) h = refl

  in_place_nonempty : (l : ListInfo D) (bs : List (Blkt D)) → bs ≢ [] → put_list_in l bs ≢ []
  unfolding put_list_in
  in_place_nonempty l [] h k = h refl
  in_place_nonempty l (b ∷ rest) h k = cc

  listed_nonempty : (bs : List (Blkt D)) (l : ListInfo D) → list_of_stage bs ≡ checked l → bs ≢ []
  unfolding list_of_stage
  listed_nonempty [] l e k = cc
  listed_nonempty (b ∷ rest) l e k = cc

  put_list-list_of :
      (l : ListInfo D) (ss : List (Stage D)) → Begins ss → list_of (put_list l ss) ≡ checked l
  unfolding list_of put_list
  put_list-list_of l [] h = elim h [ ]
  put_list-list_of l (st ∷ rest) h = in_place l st.blkts h

  put_list-Begins : (l : ListInfo D) (ss : List (Stage D)) → Begins ss → Begins (put_list l ss)
  unfolding put_list
  put_list-Begins l [] h = elim h [ ]
  put_list-Begins l (st ∷ rest) h = in_place_nonempty l st.blkts h

  list_of-Begins : (ss : List (Stage D)) (l : ListInfo D) → list_of ss ≡ checked l → Begins ss
  unfolding list_of
  list_of-Begins [] l e = absurd cc
  list_of-Begins (st ∷ rest) l e = listed_nonempty st.blkts l e

module _ {D : Type 0} ⦃d : Double D⦄ where
  longer : (bs : List (Blkt D)) (b : Blkt D) → bs ++ b ∷ [] ≢ []
  longer [] b k = cc
  longer (c ∷ bs) b k = cc

  refused_or :
      (c : Channel D) (b : Bool)
      → Begins c.stages
      → Ensures (λ c'. Begins c'.stages) (if b then failed val else checked c)
  refused_or c true h = tt
  refused_or c false h = h

  added_or :
      (c e : Channel D) (a b : Bool)
      → Begins c.stages
      → Begins e.stages
      → Ensures
          (λ c'. Begins c'.stages)
          (if a then (if b then failed val else checked e) else checked c)
  added_or c e true true h k = tt
  added_or c e true false h k = k
  added_or c e false b h k = h

  require_gain-Begins :
      (c : Channel D) (ss : List (Stage D))
      → Begins c.stages
      → Ensures (λ c'. Begins c'.stages) (require_gain c ss)
  unfolding require_gain with_gain
  require_gain-Begins c [] h = h
  require_gain-Begins c (s ∷ []) h =
      Ensures-bind (λ u. Unit {0}) _ (lacks_gain s.blkts) _ (Ensures-any (lacks_gain s.blkts))
        λ b u. refused_or c b h
  require_gain-Begins c (s ∷ t ∷ []) h =
      Ensures-bind (λ u. Unit {0}) _ (lacks_gain s.blkts) _ (Ensures-any (lacks_gain s.blkts))
        λ b u. added_or c (record c { stages = with_gain c s ∷ t ∷ [] }) b _ h (longer s.blkts _)
  require_gain-Begins c (s ∷ t ∷ r ∷ ss) h = h

  heads_nonempty : (xs ys : List (Blkt D)) → kinds 0 xs ≡ kinds 0 ys → ys ≢ [] → xs ≢ []
  heads_nonempty [] [] e h = h
  heads_nonempty [] (y ∷ ys) e h = absurd cc
  heads_nonempty (x ∷ xs) ys e h = λ k. cc

  kinds-Begins :
      (rs ss : List (Stage D)) → stage_kinds 0 rs ≡ stage_kinds 0 ss → Begins ss → Begins rs
  unfolding stage_kinds
  kinds-Begins rs [] e h = elim h [ ]
  kinds-Begins [] (s ∷ ss) e h = absurd cc
  kinds-Begins (r ∷ rs) (s ∷ ss) e h =
      heads_nonempty r.blkts s.blkts (ap (λ z. elim z [ [] ↦ [] | x ∷ _ ↦ x ]) e) h

  normalize_response-Begins :
      (o : Options D) (c : Channel D)
      → Begins c.stages
      → Ensures (λ c'. Begins c'.stages) (normalize_response o c)
  unfolding normalize_response normalize_gains with_sensfreq
  normalize_response-Begins o c h =
      Ensures-bind (λ c'. Begins c'.stages) _ (require_gain c c.stages) _
        (require_gain-Begins c c.stages h)
        λ c' k. elim (Bool-cases (any_zero_gain c'.stages)) [
          | inl e ↦ rw e tt
          | inr e ↦
              let w : Channel D = with_sensfreq c' in
              rw e (
                Ensures-bind {B = Channel D} (λ r. stage_kinds 0 r.1 ≡ stage_kinds 0 w.stages)
                  (λ z. Begins z.stages)
                  (norm_stages o w.sensfreq (length w.stages == 1) w w.stages)
                  (λ r. checked (record r.0 { stages = r.1 }))
                  (norm_stages-kinds 0 o w.sensfreq (length w.stages == 1) w w.stages)
                  (λ r q. kinds-Begins r.1 w.stages q k))
        ]

module _ {D : Type 0} ⦃d : Double D⦄ (steps : ℕ) (spline : Spline D) where
  -- The list that is saved is that of the channel, and the channel still begins with a blockette.
  IsSaved : Channel D → Prepared D → Type 0
  IsSaved c p =
      (l : ListInfo D) × (p.b55_save ≡ some l)
      × (list_of c.stages ≡ checked l)
      × Begins p.channel.stages

  interpolate_b55-IsSaved :
      (c : Channel D) (freqs : List D) → Ensures (IsSaved c) (interpolate_b55 steps spline c freqs)
  unfolding interpolate_b55 IsSaved
  interpolate_b55-IsSaved c freqs =
      Ensures-bind (λ l. list_of c.stages ≡ checked l) _ (list_of c.stages) _
        (Ensures-is (list_of c.stages))
        λ l e.
          Ensures-bind (λ u. Unit {0}) _ (read_at l.freq 0) _ (Ensures-any (read_at l.freq 0))
            λ lo u.
              Ensures-bind (λ u. Unit {0}) _ (read_at l.freq (length l.freq - 1)) _
                (Ensures-any (read_at l.freq (length l.freq - 1)))
                λ hi v.
                  let (status, left) : Status × List D = restrict_frequency_range lo hi freqs in
                  Ensures-bind (λ u. Unit {0}) _ (ok_then status left) _
                    (Ensures-any (ok_then status left))
                    λ used w.
                      Ensures-bind (λ u. Unit {0}) _
                        (interpolate_list_blockette steps spline l used) _
                        (Ensures-any (interpolate_list_blockette steps spline l used))
                        λ l' x.
                          (l, refl, e, put_list-Begins l' c.stages (list_of-Begins c.stages l e))

  prepare-IsSaved :
      (o : Options D) (c : Channel D) (freqs : List D)
      → is_block_55 c ≡ true
      → o.b55_interpolate ≡ true
      → Ensures (IsSaved c) (prepare steps spline o c freqs)
  unfolding prepare
  prepare-IsSaved o c freqs h k = rw (h, k) (interpolate_b55-IsSaved c freqs)

  restored :
      (c c' : Channel D) (p : Prepared D)
      → IsSaved c p
      → Begins c'.stages
      → list_of (restore_b55 p.b55_save c').stages ≡ list_of c.stages
  unfolding restore_b55 IsSaved
  restored c c' p (l, e, q, b) h = rw (e, q) (put_list-list_of l c'.stages h)

  -- Where a channel that begins with a response list is evaluated with interpolation, the channel has
  -- the response list of before behind the call.
  pub evalresp_channel_to_response-list_of :
      (o : Options D) (c : Channel D)
      → is_block_55 c ≡ true
      → (calculate_default_freqs o).1.b55_interpolate ≡ true
      → Ensures
          (λ e. list_of e.channel.stages ≡ list_of c.stages)
          (evalresp_channel_to_response steps spline (some o) c)
  unfolding evalresp_channel_to_response IsSaved
  evalresp_channel_to_response-list_of o c h k =
      let (status, o', grid) = calculate_default_freqs o in
      Ensures-bind (λ u. Unit {0}) _ (ok_then status grid) _ (Ensures-any (ok_then status grid))
        λ freqs u.
          Ensures-bind (IsSaved c) _ (prepare steps spline o' c freqs) _
            (prepare-IsSaved o' c freqs h k)
            λ p (l, e, q, begins).
              Ensures-bind (λ c'. Begins c'.stages) _ (normalize_response o' p.channel) _
                (normalize_response-Begins o' p.channel begins)
                λ c' b.
                  Ensures-bind (λ v. Unit {0}) _ (calculate_response o' c' p.freqs) _
                    (Ensures-any (calculate_response o' c' p.freqs))
                    λ rvec v. restored c c' p (l, e, q, begins) b
