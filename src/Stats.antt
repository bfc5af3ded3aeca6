-- ===== src/Stats.antt =====
-- engine/src/stats/stats_manager.cc: the counters of a table, numbers of 64 bits, and its flags.
use vector_database.Prelude.{ℕ, ◌+◌, ◌-◌, ◌%◌, ◌^◌, Bool, false, ltb, if◌then◌else◌}

pub record Stats : Type 0 where
  pub vector_count : ℕ
  pub deleted_count : ℕ
  pub stale_count : ℕ

pub data StatType : Type 0 where
  vector : StatType
  deleted : StatType
  stale : StatType

pub record StatsManager : Type 0 where
  pub stats : Stats
  pub modified : Bool
  pub removed : Bool

unfoldable pub create : StatsManager
create = record {
  stats = record { vector_count = 0; deleted_count = 0; stale_count = 0 };
  modified = false;
  removed = false;
}

-- the conversion of an int, given by its 32 bits, to 64 bits
abbrev pub widen : ℕ → ℕ
widen value = let low = value % 2 ^ 32 in if ltb low (2 ^ 31) then low else low + (2 ^ 64 - 2 ^ 32)

unfoldable pub increment : StatsManager → StatType → StatsManager
increment s vector = record s {
  stats = record s.stats { vector_count = (s.stats.vector_count + 1) % 2 ^ 64 };
}
increment s deleted = record s {
  stats = record s.stats { deleted_count = (s.stats.deleted_count + 1) % 2 ^ 64 };
}
increment s stale = record s {
  stats = record s.stats { stale_count = (s.stats.stale_count + 1) % 2 ^ 64 };
}

unfoldable pub set : StatsManager → StatType → ℕ → StatsManager
set s vector value = record s { stats = record s.stats { vector_count = widen value } }
set s deleted value = record s { stats = record s.stats { deleted_count = widen value } }
set s stale value = record s { stats = record s.stats { stale_count = widen value } }

unfoldable pub reset : StatsManager → StatType → StatsManager
unfolding set
reset s stat_type = set s stat_type 0

unfoldable pub adjust_for_deletions : StatsManager → StatsManager
adjust_for_deletions s = record s {
  stats = record s.stats {
    vector_count = (s.stats.vector_count + (2 ^ 64 - s.stats.deleted_count)) % 2 ^ 64;
  };
}

unfoldable pub set_removed_flag : StatsManager → Bool → StatsManager
set_removed_flag s value = record s { removed = value }

unfoldable pub set_modified_flag : StatsManager → Bool → StatsManager
set_modified_flag s value = record s { modified = value }
