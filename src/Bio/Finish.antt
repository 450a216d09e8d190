-- ===== src/Bio/Finish.antt =====
-- The end of a write of kernel/bio.c: the completion in the interrupt, and the release by the
-- process.
use airix.Prelude.{ℕ, Bool, not, if◌then◌else◌, set_bit, clear_bit, update}
use airix.Bio.{Bio, BioCache, bio_flag_updated, bio_flag_dirty}

-- The flags once a write has completed.
abbrev pub written : Bool → ℕ → ℕ
written error f = clear_bit (if not error then set_bit f bio_flag_updated else f) bio_flag_dirty

-- The state with other flags for x.
abbrev marked : ℕ → ℕ → BioCache → BioCache
marked x f s = record s { bio = update s.bio x (record (s.bio x) { flag = f }) }
