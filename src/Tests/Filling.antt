-- ===== src/Tests/Filling.antt =====
-- Filling a filter from the lists of a user.
use evalresp.Prelude.{◌≡◌, refl, none, some, [], ◌++◌, length}
use mathlib.Core.List.{flat_map}
use evalresp.Prelude.Int.{ℤ}
use evalresp.CString.{codes}
use evalresp.UserList.{split_on_space, split_on_comma}
use evalresp.Filter.{Filter, evalresp_add_sncl_all}
use evalresp.Filter.Product.{entries, evalresp_add_sncl_all-entries}

abbrev no_filter : Filter ℤ
no_filter = record { sncls = []; datetime = none }

two_by_two :
    length (
      entries
        (some (codes "IU"))
        (split_on_space (some (codes "ANMO COLA")))
        (split_on_comma (some (codes "00,10")))
        (split_on_space (some (codes "BHZ"))))
    ≡ 4
unfolding split_on_space split_on_comma flat_map
two_by_two = refl

evalresp_add_sncl_all-entries_example :
    (evalresp_add_sncl_all no_filter
      (some (codes "IU"))
      (some (codes "ANMO COLA"))
      (some (codes "00,10"))
      (some (codes "BHZ"))).sncls
    ≡ no_filter.sncls
      ++ entries
          (some (codes "IU"))
          (split_on_space (some (codes "ANMO COLA")))
          (split_on_comma (some (codes "00,10")))
          (split_on_space (some (codes "BHZ")))
evalresp_add_sncl_all-entries_example =
    evalresp_add_sncl_all-entries (some (codes "IU")) no_filter (some (codes "ANMO COLA"))
      (some (codes "00,10")) (some (codes "BHZ"))
