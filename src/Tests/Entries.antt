-- ===== src/Tests/Entries.antt =====
-- Runs on the entries of the caches, their levels and types (models/cache.go).
use proxy_common.Common.{◌≡◌, refl, true, arith, pos, ◌+ℤ◌, ◌-ℤ◌, ◌<ℤ◌}
use proxy_common.Common.Bytes.{codes, bytes_has_eq}
use proxy_common.Models.{CacheEntry, is_fresh, is_expired, remaining_ttl}
use proxy_common.Cache.{new_entry}
use proxy_common.Cache.Lifetime.{stale_copy}

-- fresh until 105, and there until 115
abbrev pub entry : CacheEntry
entry = record {
  payload = codes "42";
  expires_at = pos 115;
  stale_at = pos 105;
  created_at = pos 100;
}

stale_copy_example :
    (is_fresh (pos 112) (new_entry (pos 112) (codes "42") (remaining_ttl (pos 112) entry)) ≡ true)
    × ((new_entry (pos 112) (codes "42") (remaining_ttl (pos 112) entry)).expires_at
        ≡ pos 115 +ℤ (pos 112 -ℤ pos 105))
    × (pos 115 <ℤ (new_entry (pos 112) (codes "42") (remaining_ttl (pos 112) entry)).expires_at)
stale_copy_example =
    stale_copy (pos 112) entry (omega arith) (omega arith) (omega arith) (unfold is_fresh in refl)
      (unfold is_expired in refl)
