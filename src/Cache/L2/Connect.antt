-- ===== src/Cache/L2/Connect.antt =====
-- cache/l2/keydb_client.go, the connection to KeyDB, and the construction and the end of
-- cache/l2/keydb.go. `net/url` and the package `go-redis` are parameters.
use proxy_common.Common.{Bool, Option, none, some, [], ◌∷◌, ◌++◌, ℤ, pos, if◌then◌else◌}
use proxy_common.Common.Bytes.{Bytes, codes, bytes_eq}
use proxy_common.Common.Atoi.{atoi}
use proxy_common.Cache.Config.{KeyDbConfig, keydb_defaults}
use proxy_common.Cache.L2.{KeyDbCache}

-- What the code reads of a `url.URL`: `port` is `""` if there is none; `user` is the password of
-- `URL.User`, `none` if the pointer is nil and `some none` if it has no password.
pub record Url : Type 0 where
  pub hostname : Bytes
  pub port : Bytes
  pub user : Option (Option Bytes)
  pub path : Bytes

-- the fields of `redis.Options` that the code sets, `""` and 0 by default
pub record RedisOptions : Type 0 where
  pub addr : Bytes
  pub dial_timeout : ℤ
  pub read_timeout : ℤ
  pub write_timeout : ℤ
  pub pool_size : ℤ
  pub idle_timeout : ℤ
  pub password : Bytes
  pub db : ℤ

-- `redis.NewClient`, `Ping` with a timeout and whether it succeeds, and `Close`
pub record Dialer (R : Type 0) : Type 0 where
  pub new_client : RedisOptions → R
  pub ping : ℤ → R → Bool × R
  pub close : R → R

-- the database that a path names; a path that is no number is ignored
unfoldable pub db_of : Bytes → ℤ
db_of [] = pos 0
db_of (slash ∷ []) = pos 0
db_of (slash ∷ c ∷ name) = elim (atoi (c ∷ name)) [ none ↦ pos 0 | some db ↦ db ]

unfoldable pub password_of : Option (Option Bytes) → Bytes
password_of none = []
password_of (some none) = []
password_of (some (some password)) = password

unfoldable pub redis_options : KeyDbConfig → Url → RedisOptions
unfolding db_of password_of
redis_options cfg url =
    let port = if bytes_eq url.port [] then codes "6379" else url.port in
    record {
      addr = url.hostname ++ (codes ":" ++ port);
      dial_timeout = cfg.connection.connect_timeout;
      read_timeout = cfg.connection.read_timeout;
      write_timeout = cfg.connection.send_timeout;
      pool_size = cfg.keepalive.pool_size;
      idle_timeout = cfg.keepalive.max_idle_timeout;
      password = password_of url.user;
      db = db_of url.path;
    }

-- The errors of `NewRedisKeyDbClient`; the second names the address.
pub data Connection (R : Type 0) : Type 0 where
  bad_url : Connection R
  unreachable : Bytes → R → Connection R
  connected : R → Connection R

module _ {R : Type 0} (dialer : Dialer R) where
  -- `NewRedisKeyDbClient`; `parse` is `url.Parse`
  unfoldable pub new_redis_keydb_client : (Bytes → Option Url) → KeyDbConfig → Bytes → Connection R
  unfolding keydb_defaults redis_options
  new_redis_keydb_client parse config keydb_url =
      let cfg = keydb_defaults config in
      elim (parse keydb_url) [
        | none ↦ bad_url
        | some url ↦
            let options = redis_options cfg url in
            let (ok, client) =
              dialer.ping cfg.connection.connect_timeout (dialer.new_client options) in
            if ok then connected client else unreachable options.addr (dialer.close client)
      ]

  -- `NewKeyDBCache`
  unfoldable pub new_keydb_cache : KeyDbConfig → R → KeyDbCache R
  unfolding keydb_defaults
  new_keydb_cache config client = record {
    world = client;
    cfg = keydb_defaults config;
    metrics = [];
  }

  unfoldable pub close : KeyDbCache R → KeyDbCache R
  close kc = record kc { world = dialer.close kc.world }
