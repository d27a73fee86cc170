-- ===== src/BetEscrow/Config.antt =====
-- The split of a forfeited wager, in basis points: lines 117 to 161 of server/game/bet-escrow.ts.
use astroid_club.Prelude.{if◌then◌else◌, nat_eq, ℕ, ◌+◌, ◌==◌, ◌≡◌}

pub record LossSplit : Type 0 where
  pub burn_bps : ℕ
  pub recirculate_bps : ℕ
  pub defender_bps : ℕ

abbrev pub default_loss_split : LossSplit
default_loss_split = record { burn_bps = 4000; recirculate_bps = 4000; defender_bps = 2000 }

-- A value of the environment: absent, a whole number of at least 0, or one that is neither.
pub data EnvValue : Type 0 where
  absent unusable : EnvValue
  number : ℕ → EnvValue

pub read_bps : EnvValue → ℕ → ℕ
read_bps absent fallback = fallback
read_bps unusable fallback = fallback
read_bps (number n) fallback = n

unfoldable pub normalize_loss_split : LossSplit → LossSplit
normalize_loss_split s =
    if s.burn_bps + s.recirculate_bps + s.defender_bps == 10000 then s else default_loss_split

-- What the module sets at load, and what `setRaidLossSplit` leaves.
pub boot_loss_split : EnvValue → EnvValue → EnvValue → LossSplit
unfolding read_bps normalize_loss_split
boot_loss_split burn recirculate defender = normalize_loss_split (record {
  burn_bps = read_bps burn default_loss_split.burn_bps;
  recirculate_bps = read_bps recirculate default_loss_split.recirculate_bps;
  defender_bps = read_bps defender default_loss_split.defender_bps;
})

abbrev pub IsWhole : LossSplit → Type 0
IsWhole s = s.burn_bps + s.recirculate_bps + s.defender_bps ≡ 10000
