-- ===== src/UserList.antt =====
-- The lists that a user writes, "ANMO COLA,KEV": the string functions of libsrc/evalresp/input.c
-- that evalresp_add_sncl_all splits its arguments with. Allocation does not fail.
use evalresp.Prelude.{
  ℕ, zero, suc, ◌-◌, ◌≡◌, refl, Option, none, some, List, [], ◌∷◌, ◌++◌, map, ◌==◌, if◌then◌else◌,
  length, take, drop,
}
use evalresp.CString.{Str, codes, is_empty, strstr}

-- while (*s == ' ') shift_string_left (s)
unfoldable pub drop_spaces : Str → Str
drop_spaces [] = []
drop_spaces (c ∷ s) = if c == 32 then drop_spaces s else c ∷ s

-- The spaces at the end become NULs.
unfoldable pub drop_last_spaces : Str → Str
drop_last_spaces [] = []
drop_last_spaces (c ∷ s) =
    let t = drop_last_spaces s in if c == 32 then (if is_empty t then [] else c ∷ t) else c ∷ t

unfoldable pub trim_string_inplace : Str → Str
unfolding drop_spaces drop_last_spaces
trim_string_inplace s = drop_last_spaces (drop_spaces s)

unfoldable pub copy_and_trim_string : Option Str → Str
unfolding trim_string_inplace
copy_and_trim_string none = trim_string_inplace []
copy_and_trim_string (some s) = trim_string_inplace s

-- The for loop of coallesce_spaces, which shortens the string before each next round.
coallesce_from : ℕ → Str → Str
coallesce_from zero s = s
coallesce_from (suc fuel) [] = []
coallesce_from (suc fuel) (c ∷ s) = c ∷ coallesce_from fuel (if c == 32 then drop_spaces s else s)

unfoldable pub coallesce_spaces : Str → Str
unfolding coallesce_from drop_spaces
coallesce_spaces s = coallesce_from (length s) s

unfoldable pub comma_to_space : ℕ → ℕ
comma_to_space c = if c == b',' then 32 else c

-- `while (*str++)` moves on before `*str` is compared, so the first byte is never replaced.
unfoldable pub replace_comma_with_space : Str → Str
unfolding comma_to_space
replace_comma_with_space [] = []
replace_comma_with_space (c ∷ s) = c ∷ map comma_to_space s

-- append_string, on the bytes that it copies
append_string : List Str → Str → List Str
append_string array string = array ++ trim_string_inplace string ∷ []

-- The bytes before `end`, and the rest behind the delimiter.
cut_at : Str → Str → Str × Str
cut_at start delim = elim (strstr start delim) [
  | none ↦ (start, [])
  | some end ↦ (take (length start - length end) start, drop 1 end)
]

-- The loop of split_on, each round of which shortens `start`.
split_from : ℕ → Str → Str → List Str → List Str
split_from zero start delim array = array
split_from (suc fuel) start delim array =
    let piece = cut_at start delim in
    let more = split_from fuel piece.1 delim (append_string array piece.0) in
    if is_empty start then array else more

-- An empty list gets one empty string.
unfoldable pub split_on : Str → Str → List Str
unfolding split_from append_string cut_at strstr trim_string_inplace
split_on string delim =
    let array = split_from (length string) string delim [] in
    if is_empty array then append_string array [] else array

unfoldable pub split_on_space : Option Str → List Str
unfolding split_on copy_and_trim_string coallesce_spaces replace_comma_with_space
split_on_space str =
    split_on (coallesce_spaces (replace_comma_with_space (copy_and_trim_string str))) (codes " ")

unfoldable pub split_on_comma : Option Str → List Str
unfolding split_on copy_and_trim_string
split_on_comma str = split_on (copy_and_trim_string str) (codes ",")

lists_split :
    (split_on_space (some (codes " ANMO,  COLA KEV "))
      ≡ codes "ANMO" ∷ codes "COLA" ∷ codes "KEV" ∷ [])
    × (split_on_space (some (codes ",ANMO")) ≡ codes ",ANMO" ∷ [])
    × (split_on_space none ≡ [] ∷ [])
    × (split_on_comma (some (codes "00, ,10,")) ≡ codes "00" ∷ [] ∷ codes "10" ∷ [])
unfolding split_on_space split_on_comma
lists_split = (refl, refl, refl, refl)
