-- ===== src/Driver/Search.antt =====
-- find_files and get_names of libsrc/evalresp/file_ops.c. The paths fit their buffers, and a stat
-- that fails finds no directory.
use evalresp.Prelude.{
  Bool, not, ◌&&◌, ◌||◌, Option, none, some, List, [], ◌∷◌, ◌++◌, map, reverse, if◌then◌else◌, drop,
}
use evalresp.CString.{Str, codes, is_empty, str_eq, span_to}
use evalresp.UserList.{drop_spaces}
use evalresp.Filter.{Sncl}

-- What the files and the environment are, to these functions.
pub record Files : Type 0 where
  pub stdin : Str
  -- what fopen and fread give
  pub contents : Str → Option Str
  -- fopen for writing succeeds
  pub writable : Str → Bool
  -- stat and S_ISDIR
  pub is_directory : Str → Bool
  -- gl_pathv of glob, empty where it fails
  pub glob : Str → List Str
  pub getenv : Str → Option Str
  pub getcwd : Str

-- strtok (s, " "): the token and what is left.
unfoldable pub strtok : Str → Str × Str
unfolding drop_spaces span_to
strtok s = let (token, rest) = span_to 32 (drop_spaces s) in (token, drop 1 rest)

module _ (w : Files) where
  -- The names for the second token, where there is one.
  names_for : Str → List Str
  names_for token = if is_empty token then [] else reverse (w.glob token)

  -- The list that is built goes from the last path to the first.
  unfoldable pub get_names : Str → List Str
  unfolding strtok names_for
  get_names in_file =
      let (first, rest) = strtok in_file in
      if is_empty (w.glob first) then names_for (strtok rest).0 else reverse (w.glob first)

-- "RESP.%s.%s.%s", without the location
abbrev resp_name : Sncl → Str
resp_name s = codes "/RESP." ++ s.network ++ codes "." ++ s.station ++ codes "." ++ s.channel

-- "RESP.%s.%s.%s.%s"
abbrev resp_name_in : Sncl → Str → Str
resp_name_in s locid =
    codes "/RESP."
    ++ s.network
    ++ codes "."
    ++ s.station
    ++ codes "."
    ++ locid
    ++ codes "."
    ++ s.channel

module _ (w : Files) where
  -- The second pattern, where the first one finds nothing and the location is a wildcard.
  unfoldable pub names_or : Str → Bool → Str → List Str
  unfolding get_names
  names_or pattern wild second =
      let names = get_names w pattern in
      if is_empty names && wild then get_names w second else names

  -- An entry of the filter, in a directory.
  unfoldable pub names_in : Str → Sncl → List Str
  unfolding names_or str_eq
  names_in dir s =
      let loc_wild = str_eq s.locid (codes "*") || str_eq s.locid (codes "??") in
      names_or (dir ++ resp_name_in s (if loc_wild then codes "*" else s.locid)) loc_wild
        (dir ++ resp_name s)

  -- A second token for the directory of SEEDRESP, where it is another one than the current.
  unfoldable pub seedresp_token : Str → Str
  unfolding str_eq
  seedresp_token name = elim (w.getenv (codes "SEEDRESP")) [
    | none ↦ []
    | some basedir ↦
        if w.is_directory basedir && not (str_eq w.getcwd basedir)
        then codes " " ++ basedir ++ name
        else []
  ]

  -- An entry of the filter, in the current directory or that of SEEDRESP.
  unfoldable pub names_here : Sncl → List Str
  unfolding names_or seedresp_token str_eq
  names_here s =
      names_or (codes "." ++ resp_name_in s s.locid ++ seedresp_token (resp_name_in s s.locid))
        (str_eq s.locid (codes "*")) (codes "." ++ resp_name s ++ seedresp_token (resp_name s))

  -- none is *mode = 0, where a file is given. The list has one more place than the filter entries.
  unfoldable pub find_files : Option Str → List Sncl → Option (List (List Str))
  unfolding names_in names_here
  find_files none sncls = some (map names_here sncls ++ [] ∷ [])
  find_files (some []) sncls = some (map names_here sncls ++ [] ∷ [])
  find_files (some (c ∷ file)) sncls =
      if w.is_directory (c ∷ file) then some (map (names_in (c ∷ file)) sncls ++ [] ∷ []) else none
