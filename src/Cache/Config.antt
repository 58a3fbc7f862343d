-- ===== src/Cache/Config.antt =====
-- cache/config.go: the configurations of the levels with their defaults. Durations are nanoseconds.
use proxy_common.Common.{zero, suc, Bool, ℤ, pos, negsuc}

-- `if field == 0 { field = d }`
abbrev pub or_default : ℤ → ℤ → ℤ
or_default (pos zero) d = d
or_default (pos (suc n)) d = pos (suc n)
or_default (negsuc n) d = negsuc n

pub record BigCacheConfig : Type 0 where
  pub enabled : Bool
  pub size : ℤ
  pub max_entry_size : ℤ
  pub shards : ℤ

-- `ApplyDefaults` of `BigCacheConfig`
unfoldable pub big_cache_defaults : BigCacheConfig → BigCacheConfig
big_cache_defaults c = record c {
  size = or_default c.size (pos 100);
  max_entry_size = or_default c.max_entry_size (pos 1_048_576);
  shards = or_default c.shards (pos 256);
}

pub record ConnectionConfig : Type 0 where
  pub connect_timeout : ℤ
  pub send_timeout : ℤ
  pub read_timeout : ℤ

pub record KeepaliveConfig : Type 0 where
  pub pool_size : ℤ
  pub max_idle_timeout : ℤ

pub record CacheSettings : Type 0 where
  pub default_ttl : ℤ
  pub max_ttl : ℤ

pub record KeyDbConfig : Type 0 where
  pub enabled : Bool
  pub connection : ConnectionConfig
  pub keepalive : KeepaliveConfig
  pub cache : CacheSettings

-- `ApplyDefaults` of `KeyDBConfig`
unfoldable pub keydb_defaults : KeyDbConfig → KeyDbConfig
keydb_defaults c = record c {
  connection = record {
    connect_timeout = or_default c.connection.connect_timeout (pos 1_000_000_000);
    send_timeout = or_default c.connection.send_timeout (pos 1_000_000_000);
    read_timeout = or_default c.connection.read_timeout (pos 1_000_000_000);
  };
  keepalive = record {
    pool_size = or_default c.keepalive.pool_size (pos 10);
    max_idle_timeout = or_default c.keepalive.max_idle_timeout (pos 10_000_000_000);
  };
  cache = record {
    default_ttl = or_default c.cache.default_ttl (pos 3_600_000_000_000);
    max_ttl = or_default c.cache.max_ttl (pos 86_400_000_000_000);
  };
}
