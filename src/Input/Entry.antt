-- ===== src/Input/Entry.antt =====
-- evalresp_char_to_channels of libsrc/evalresp/input.c.
use evalresp.Prelude.{Option}
use evalresp.CString.{Str}
use evalresp.Checked.{Checked, ◌>>=◌}
use evalresp.RegExp.{RegExp}
use evalresp.Double.{Double}
use evalresp.DateTime.{Calendar}
use evalresp.Filter.{Filter}
use evalresp.Selection.{Selected, filter_channels}
use evalresp.Options.{Options}
use evalresp.Input.Collect.{collect_channels}

module _ {D : Type 0} ⦃d : Double D⦄ (re : RegExp) (o : Option (Options D)) where
  -- On a failure *channels is NULL.
  unfoldable pub evalresp_char_to_channels :
      Calendar → Str → Option (Filter D) → Checked (Selected D)
  unfolding collect_channels filter_channels
  evalresp_char_to_channels cal seed filter = do
    all_channels ← collect_channels re o seed
    filter_channels re cal filter all_channels
