-- ===== src/Input/Action.antt =====
-- What the readers of blockettes in libsrc/evalresp/input.c work on, and the functions that read one
-- field: read_int, read_double, find_int_field, find_double_field and parse_int_field.
use evalresp.Prelude.{
  ℕ, zero, suc, Bool, ◌||◌, none, some, List, [], ◌∷◌, if◌then◌else◌, length, ltb,
}
use evalresp.Prelude.Int.{ℤ, pos, negsuc}
use evalresp.CString.{Str, codes, atoi}
use evalresp.Status.{Status, par, is_ok}
use evalresp.Checked.{Checked, checked, failed, undefined}
use evalresp.RegExp.{RegExp, is_int, is_real}
use evalresp.Double.{Double}
use evalresp.Channel.{Stage, Channel, Blkt}
use evalresp.Reader.{read_line, find_line, get_field_to_parse}

-- *seed, the channel, the stage and the blockette that a reader fills, and *sequence_no of read_deci
-- and read_gain. `stages`: those before `stage`, which read_ref fills. `torn`: the blockette has a
-- member that is not written since its allocation.
pub record Input (D : Type 0) : Type 0 where
  pub seed : Str
  pub channel : Channel D
  pub stages : List (Stage D)
  pub stage : Stage D
  pub blkt : Blkt D
  pub sequence_no : ℤ
  pub torn : Bool

-- What was written stays written when a reader returns with a status.
abbrev pub Action : Type 0 → Type 0 → Type 0
Action D A = Input D → Checked A × Input D

module _ {D : Type 0} {A : Type 0} where
  unfoldable pub pure : A → Action D A
  pure a s = (checked a, s)

  unfoldable pub return : Status → Action D A
  return status s = (failed status, s)

  -- A step that reads memory which was not written.
  unfoldable pub wild : Action D A
  wild s = (undefined, s)

-- What follows a step.
unfoldable pub proceed :
    {D A B : Type 0} → Checked A × Input D → (A → Action D B) → Checked B × Input D
proceed (checked a, s) f = f a s
proceed (failed status, s) f = (failed status, s)
proceed (undefined, s) f = (undefined, s)

infixl 5 ◌>>=◌ ◌>>◌
unfoldable pub ◌>>=◌ : {D A B : Type 0} → Action D A → (A → Action D B) → Action D B
unfolding proceed
◌>>=◌ m f s = proceed (m s) f

unfoldable pub ◌>>◌ : {D A B : Type 0} → Action D A → Action D B → Action D B
unfolding ◌>>=◌
m >> k = m >>= λ _. k

module _ {D : Type 0} where
  unfoldable pub modify : (Input D → Input D) → Action D Unit
  modify f s = (checked tt, f s)

  unfoldable pub set_stage : (Stage D → Stage D) → Action D Unit
  set_stage f = modify λ s. record s { stage = f s.stage }

  unfoldable pub set_channel : (Channel D → Channel D) → Action D Unit
  set_channel f = modify λ s. record s { channel = f s.channel }

  unfoldable pub set_blkt : Blkt D → Action D Unit
  set_blkt b = modify λ s. record s { blkt = b }

  unfoldable pub set_torn : Bool → Action D Unit
  set_torn t = modify λ s. record s { torn = t }

  -- Return EVALRESP_PAR unless the test holds.
  unfoldable pub require : Bool → Action D Unit
  require b s = (if b then checked tt else failed par, s)

  unfoldable pub when : Bool → Action D Unit → Action D Unit
  when b m s = if b then m s else (checked tt, s)

  -- The length of an array that is allocated with malloc: its elements are not written. For a negative
  -- count the array is NULL and the code goes on; lists have no such length, and the model ends here.
  unfoldable pub allocate : ℤ → Action D ℕ
  allocate (pos n) s = (checked n, record s { torn = s.torn || ltb 0 n })
  allocate (negsuc n) s = (undefined, s)

  -- for (i = 0; i < n; i++)
  unfoldable pub repeat : {A : Type 0} → ℕ → Action D A → Action D (List A)
  repeat zero m s = (checked [], s)
  repeat (suc n) m s = (m >>= λ a. repeat n m >>= λ rest. pure (a ∷ rest)) s

  -- strncpy into a field of `n` bytes: a string that leaves no room for its NUL runs into what
  -- follows the field.
  unfoldable pub fitting : ℕ → Str → Action D Str
  fitting n text s = (if ltb (length text) n then checked text else undefined, s)

  unfoldable pub field_of : Str → ℕ → Action D Str
  unfolding get_field_to_parse
  field_of line fld_no s = (get_field_to_parse line fld_no, s)

module _ {D : Type 0} ⦃d : Double D⦄ (re : RegExp) where
  unfoldable pub read_int : Str → Action D ℤ
  unfolding is_int atoi
  read_int text s = (if is_int re text then checked (atoi text) else failed par, s)

  -- atof (text) is (strtod (text)).0
  unfoldable pub read_double : Str → Action D D
  unfolding is_real
  read_double text s = (if is_real re text then checked (d.strtod text).0 else failed par, s)

  -- read_line with the separator ":": the numbers and the text. A line that is read has both numbers.
  unfoldable pub next_line : Action D (ℤ × ℤ × Str)
  unfolding read_line is_ok
  next_line s =
      let r = read_line re s.seed (codes ":") in
      (
        if is_ok r.status
            then elim r.blkt_no [
              | none ↦ undefined
              | some b ↦ elim r.fld_no [ none ↦ undefined | some f ↦ checked (b, f, r.line) ]
            ]
            else failed r.status,
        record s { seed = r.rest },
      )

  -- find_line on *seed
  unfoldable pub input_line : Str → ℤ → ℤ → Action D Str
  unfolding is_ok
  input_line sep blkt_no fld_no s =
      let (status, line, rest) = find_line re s.seed sep blkt_no fld_no in
      (if is_ok status then checked line else failed status, record s { seed = rest })

  -- find_field on *seed
  unfoldable pub input_field : Str → ℤ → ℤ → ℕ → Action D Str
  input_field sep blkt_no fld_no fld_wanted = do
    line ← input_line sep blkt_no fld_no
    field_of line fld_wanted

  -- The separator is ":" and the field number 0 in all calls.
  unfoldable pub find_int_field : ℤ → ℤ → Action D ℤ
  find_int_field blkt_no fld_no = do
    field ← input_field (codes ":") blkt_no fld_no 0
    read_int field

  unfoldable pub find_double_field : ℤ → ℤ → Action D D
  find_double_field blkt_no fld_no = do
    field ← input_field (codes ":") blkt_no fld_no 0
    read_double field

  unfoldable pub parse_int_field : Str → ℕ → Action D ℤ
  parse_int_field line fld_wanted = do field ← field_of line fld_wanted; read_int field

  -- get_field_to_parse, is_real and atof
  unfoldable pub real_of : Str → ℕ → Action D D
  real_of line fld_no = do field ← field_of line fld_no; read_double field
