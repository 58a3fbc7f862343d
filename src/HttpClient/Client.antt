-- ===== src/HttpClient/Client.antt =====
-- The client of httpclient/client.go: its construction, its status handler, and a request with it.
-- The handler acts on a state of type `H`; a nil handler is `none`.
use proxy_common.Common.{Option, none, some, List, [], ◌∷◌, ℤ}
use proxy_common.HttpClient.{RetryOptions, Event, Outcome, RateLimiter, Outside, execute_request}

-- `IHttpStatusHandler` on its state: what `OnRetry` and `OnRequest` do.
pub record StatusHandler (H : Type 0) : Type 0 where
  pub on_event : Event → H → H

-- `HTTPClientWithRetries`; of `http.Client` the two timeouts that the code sets
pub record HttpClientWithRetries (H W : Type 0) : Type 0 where
  pub timeout : ℤ
  pub dial_timeout : ℤ
  pub opts : RetryOptions
  pub status_handler : Option (StatusHandler H)
  pub rate_limiter : RateLimiter W

module _ {H W : Type 0} where
  unfoldable pub new_http_client_with_retries :
      RetryOptions → Option (StatusHandler H) → RateLimiter W → HttpClientWithRetries H W
  new_http_client_with_retries opts handler rate_limiter = record {
    timeout = opts.request_timeout;
    dial_timeout = opts.connection_timeout;
    opts = opts;
    status_handler = handler;
    rate_limiter = rate_limiter;
  }

  unfoldable pub set_status_handler :
      Option (StatusHandler H) → HttpClientWithRetries H W → HttpClientWithRetries H W
  set_status_handler handler c = record c { status_handler = handler }

module _ {H : Type 0} where
  -- the calls of the handler, behind the tests for nil
  unfoldable pub notify : Option (StatusHandler H) → List Event → H → H
  notify none events h = h
  notify (some handler) [] h = h
  notify (some handler) (event ∷ events) h = notify (some handler) events (handler.on_event event h)

  -- `ExecuteRequest` with the status handler; what `http.Client.Do` does may depend on the timeouts
  unfoldable pub execute :
      {W : Type 0} → (ℤ → ℤ → Outside W) → HttpClientWithRetries H W → W → H → Outcome × W × H
  unfolding notify
  execute outside c w h =
      let (outcome, events, w') =
        execute_request c.rate_limiter (outside c.timeout c.dial_timeout) c.opts w in
      (outcome, w', notify c.status_handler events h)
