-- ===== src/Evaluation.antt =====
-- The responses of channels: evalresp_channel_to_response and evalresp_channels_to_responses of
-- libsrc/evalresp/evaluation.c, with the handling of blockette 55.
pub mod Interpolate
pub mod Cubic
pub mod Answers
pub mod Lengths
pub mod Restored
use evalresp.Prelude.{
  ℕ, ◌-◌, Bool, true, false, Option, none, some, List, [], ◌∷◌, if◌then◌else◌, length,
}
use evalresp.Status.{Status, is_ok}
use evalresp.CString.{Str}
use evalresp.Checked.{Checked, checked, failed, undefined, ◌>>=◌}
use evalresp.Double.{Double}
use evalresp.Channel.{Complex, Channel, Stage, Blkt, ListInfo, list}
use evalresp.Options.{Options, evalresp_new_options}
use evalresp.Frequencies.{is_block_55, calculate_default_freqs, restrict_frequency_range}
use evalresp.Calc.Sensitivity.{normalize_response}
use evalresp.Calc.Respond.{calculate_response}
use evalresp.Evaluation.Interpolate.{Spline, read_at, interpolate_list_blockette}

-- evalresp_response: `nfreqs` is the length of `freqs`. The names fit their fields, which are as long
-- as those of the channel.
pub record Response (D : Type 0) : Type 0 where
  pub station : Str
  pub network : Str
  pub locid : Str
  pub channel : Str
  pub freqs : List D
  pub rvec : List (Complex D)

-- The response, the channel and the options behind a call that succeeds.
pub record Evaluated (D : Type 0) : Type 0 where
  pub response : Response D
  pub channel : Channel D
  pub options : Options D

module _ {D : Type 0} where
  -- channel->first_stage->first_blkt->blkt_info.list
  unfoldable pub list_of_stage : List (Blkt D) → Checked (ListInfo D)
  list_of_stage (list l ∷ _) = checked l
  list_of_stage _ = undefined

  unfoldable pub list_of : List (Stage D) → Checked (ListInfo D)
  unfolding list_of_stage
  list_of [] = undefined
  list_of (st ∷ rest) = list_of_stage st.blkts

  -- The list in the first blockette, in place of the one there.
  unfoldable pub put_list_in : ListInfo D → List (Blkt D) → List (Blkt D)
  put_list_in l [] = []
  put_list_in l (b ∷ rest) = list l ∷ rest

  unfoldable pub put_list : ListInfo D → List (Stage D) → List (Stage D)
  unfolding put_list_in
  put_list l [] = []
  put_list l (st ∷ rest) = record st { blkts = put_list_in l st.blkts } ∷ rest

  -- With the saved list, if there is one.
  unfoldable pub restore_b55 : Option (ListInfo D) → Channel D → Channel D
  unfolding put_list
  restore_b55 none c = c
  restore_b55 (some l) c = record c { stages = put_list l c.stages }

-- What the frequencies come to: those of the response, the channel that is evaluated and b55_save.
pub record Prepared (D : Type 0) : Type 0 where
  pub freqs : List D
  pub channel : Channel D
  pub b55_save : Option (ListInfo D)

-- What follows a status of EVALRESP_OK.
unfoldable pub ok_then : {A : Type 0} → Status → A → Checked A
unfolding is_ok
ok_then status a = if is_ok status then checked a else failed status

module _ {D : Type 0} where
  unfoldable pub use_b55_freqs : Channel D → Checked (Prepared D)
  unfolding list_of
  use_b55_freqs c = do
    l ← list_of c.stages
    checked (record { freqs = l.freq; channel = c; b55_save = none })

  unfoldable pub with_names : Channel D → List D → List (Complex D) → Response D
  with_names c freqs rvec = record {
    station = c.staname;
    network = c.network;
    locid = c.locid;
    channel = c.chaname;
    freqs = freqs;
    rvec = rvec;
  }

module _ {D : Type 0} where
  -- The response goes before those of the other channels, which `next` answers.
  unfoldable pub add_response :
      (Options D → List (Response D) × Checked (Unit {0}))
      → Checked (Evaluated D)
      → List (Response D) × Checked (Unit {0})
  add_response next (checked e) = let (responses, r) = next e.options in (e.response ∷ responses, r)
  add_response next (failed status) = ([], failed status)
  add_response next undefined = ([], undefined)

module _ {D : Type 0} ⦃d : Double D⦄ (steps : ℕ) (spline : Spline D) where
  unfoldable pub interpolate_b55 : Channel D → List D → Checked (Prepared D)
  unfolding ok_then list_of put_list read_at
  interpolate_b55 c freqs = do
    l ← list_of c.stages
    lo ← read_at l.freq 0
    hi ← read_at l.freq (length l.freq - 1)
    let (status, left) : Status × List D = restrict_frequency_range lo hi freqs
    used ← ok_then status left
    l' ← interpolate_list_blockette steps spline l used
    checked (record {
      freqs = used;
      channel = record c { stages = put_list l' c.stages };
      b55_save = some l;
    })

  -- The frequencies of the options, or those that blockette 55 has.
  unfoldable pub prepare : Options D → Channel D → List D → Checked (Prepared D)
  unfolding is_block_55 interpolate_b55 use_b55_freqs
  prepare o c freqs =
      if is_block_55 c
      then (if o.b55_interpolate then interpolate_b55 c freqs else use_b55_freqs c)
      else checked (record { freqs = freqs; channel = c; b55_save = none })

  -- Options that are NULL are new ones. A failure frees the response.
  unfoldable pub evalresp_channel_to_response :
      Option (Options D) → Channel D → Checked (Evaluated D)
  unfolding ok_then prepare with_names restore_b55 calculate_default_freqs normalize_response
      calculate_response evalresp_new_options
  evalresp_channel_to_response options c = do
    let o : Options D = elim options [ none ↦ evalresp_new_options | some o ↦ o ]
    let (status, o', grid) : Status × Options D × List D = calculate_default_freqs o
    freqs ← ok_then status grid
    p ← prepare o' c freqs
    c' ← normalize_response o' p.channel
    rvec ← calculate_response o' c' p.freqs
    checked (record {
      response = with_names c' p.freqs rvec;
      channel = restore_b55 p.b55_save c';
      options = o';
    })

  -- The loop over the channels, each with the options as the one before left them: the responses, and
  -- how it ends.
  unfoldable pub evalresp_channels_to_responses :
      Options D → List (Channel D) → List (Response D) × Checked (Unit {0})
  unfolding evalresp_channel_to_response add_response
  evalresp_channels_to_responses o [] = ([], checked tt)
  evalresp_channels_to_responses o (c ∷ rest) =
      add_response (λ o'. evalresp_channels_to_responses o' rest)
        (evalresp_channel_to_response (some o) c)
