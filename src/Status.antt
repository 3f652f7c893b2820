-- ===== src/Status.antt =====
-- The status codes of libsrc/evalresp/public_api.h (enum evalresp_status_enum).
use evalresp.Prelude.{◌≡◌, refl, Bool, true, false}

pub data Status : Type 0 where
  ok mem io inp err par eof val : Status

-- !status
unfoldable pub is_ok : Status → Bool
is_ok ok = true
is_ok _ = false

pub is_ok-eq : (s : Status) → is_ok s ≡ true → s ≡ ok
unfolding is_ok
is_ok-eq ok h = refl
is_ok-eq _ h = cc
