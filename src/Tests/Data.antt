-- ===== src/Tests/Data.antt =====
-- Channels to run the code on.
use evalresp.Prelude.{[]}
use evalresp.Prelude.Int.{ℤ, pos}
use evalresp.CString.{Str, codes}
use evalresp.Channel.{Channel}

-- The channel of a station with its start and end.
abbrev pub channel : Str → Str → Str → Channel ℤ
channel sta beg end = record {
  staname = sta;
  network = codes "IU";
  locid = codes "00";
  chaname = codes "BHZ";
  beg_t = beg;
  end_t = end;
  first_units = [];
  last_units = [];
  sensit = pos 0;
  sensfreq = pos 0;
  calc_sensit = pos 0;
  calc_delay = pos 0;
  estim_delay = pos 0;
  applied_corr = pos 0;
  unit_scale_fact = pos 1;
  sint = pos 0;
  stages = [];
}

abbrev pub anmo_old : Channel ℤ
anmo_old = channel (codes "ANMO") (codes "2000,001") (codes "2005,001")

abbrev pub anmo_new : Channel ℤ
anmo_new = channel (codes "ANMO") (codes "2005,001") (codes "2010,001")

abbrev pub cola : Channel ℤ
cola = channel (codes "COLA") (codes "2000,001") (codes "No Ending Time")

abbrev pub ancient : Channel ℤ
ancient = channel (codes "ANMO") (codes "1970,001") (codes "2050,001")
