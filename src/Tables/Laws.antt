-- ===== src/Tables/Laws.antt =====
-- What the lookup maps hold.
use ubersdr_dsc.Base.{ℕ, ◌==◌, ◌≡◌, ◌||◌, arith}
use ubersdr_dsc.Tables.{is_end_of_signal}

-- The symbols 117, 122 and 127 end a call, and no others.
pub is_end_of_signal_lem : (v : ℕ) → is_end_of_signal v ≡ (v == 117 || v == 122 || v == 127)
unfolding is_end_of_signal
is_end_of_signal_lem v = ground arith
