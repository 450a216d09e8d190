-- ===== src/Bio/Sectors.antt =====
-- bio_read, bio_data and bio_advance_iter of kernel/bio.c.
use airix.Prelude.{
  ℕ, zero, suc, ◌+◌, ◌*◌, ◌≤◌, ◌<◌, ◌≡◌, Bool, not, Option, none, some, List, if◌then◌else◌,
  set_bit,
}
use airix.Bio.{Bio, bio_flag_updated, sectors_per_bio, bio_advance_iter}

-- `bio_advance_iter`, n times.
abbrev pub advance : ℕ → Bio → Bio
advance zero b = b
advance (suc n) b = advance n (bio_advance_iter b)

-- Data at the iterator of a bio: a whole sector inside the page of the buffer, or none from the
-- eighth sector on.
abbrev pub DataAt : ℕ → ℕ → Option ℕ → Type 0
DataAt buffer i d =
    (i < sectors_per_bio → (d ≡ some (buffer + i * 512)) × (buffer + i * 512 + 512 ≤ buffer + 4096))
    × (sectors_per_bio ≤ i → d ≡ none)

abbrev woken : Bool → List ℕ → Bio → Bio
woken error procs b = record b {
  flag = if not error then set_bit b.flag bio_flag_updated else b.flag;
  sleep = procs;
}
