-- ===== src/ApiKeys/Backoff.antt =====
-- What marking a key as failed (apikeys/manager.go) changes.
use proxy_common.Common.{◌≡◌, not, ◌&&◌, [], arith, ℤ, ◌-ℤ◌, ltb_ℤ, if◌then◌else◌}
use proxy_common.Common.Bytes.{Bytes, bytes_eq, bytes_eq_iff, bytes_has_eq}
use proxy_common.Common.GoMap.{lookup-insert}
use proxy_common.ApiKeys.{Manager, is_key_in_backoff, mark_key_as_failed}

-- After `key` was marked as failed at `failed`, a key `k` is in backoff at `now` as follows. The
-- marked key, unless it is empty, is in backoff exactly while less than the backoff time has
-- passed since `failed`, whatever its state was before; every other key is as it was.
is_in_backoff-mark :
    (m : Manager) (failed now : ℤ) (key k : Bytes)
    → is_key_in_backoff (mark_key_as_failed failed key m) now k ≡ (
        if bytes_eq key k && not (bytes_eq key [])
        then ltb_ℤ (now -ℤ failed) m.backoff_time
        else is_key_in_backoff m now k)
unfolding is_key_in_backoff mark_key_as_failed
is_in_backoff-mark m failed now key k = ground (
  arith,
  lookup-insert key k failed m.last_failed,
  bytes_eq_iff key k,
  bytes_eq_iff key [],
  bytes_eq_iff k [],
)
