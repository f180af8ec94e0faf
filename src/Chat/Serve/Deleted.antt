-- ===== src/Chat/Serve/Deleted.antt =====
-- `ServeHTTP` over the bolt store, whose `Lookup` never fails.
use tokenomics.Base.{String, false, Option, none, Result, ok, ◌≡◌, refl}
use tokenomics.Base.Eq.{string_eq, ◌==◌}
use tokenomics.Policy.Resolve.{Policy}
use tokenomics.Store.Services.{Services, ServiceLaws}
use tokenomics.Store.Bolt.{BoltStore, delete}
use tokenomics.Store.Cache.{lookup_token}
use tokenomics.Store.RoundTrip.{delete-lookup_token}
use tokenomics.Chat.{Incoming}
use tokenomics.Chat.Proxy.{Deps, Proxy, Readings}
use tokenomics.Chat.Handler.{Settings}
use tokenomics.Chat.Serve.{raw_token, serve_http, on_found, refused, invalid_token}

module _ (d : Deps) (svc : Services d.re) where
  abbrev pub find_in :
      svc.Time
      → svc.Time
      → BoltStore svc
      → String
      → BoltStore svc × Result (Unit {0}) (Option (Policy d.re.Regexp))
  find_in now later s hash = let (s', p) = lookup_token svc s hash now later in (s', ok p)

  module _ (laws : ServiceLaws svc) (hash_token : String → String) (upstream_url : String)
      (h : Settings) (now later : svc.Time) where
    on_found-invalid_token :
        (incoming : Incoming) (times : Readings) (request_id hash : String) (p : Proxy d)
        (r : BoltStore svc × Option (Policy d.re.Regexp))
        → r.1 ≡ none
        → (on_found d {E = Unit {0}}
            (find_in now later)
            hash_token
            upstream_url
            h
            incoming
            times
            request_id
            hash
            p
            (r.0, ok r.1)).1
          ≡ refused (invalid_token incoming hash)
    on_found-invalid_token incoming times request_id hash p (s, o) e = rw e refl

    -- Once `Delete` has removed a token without an error, every request that presents it, in whichever of
    -- the headers, and on whichever path, is refused with 401 as an invalid token, and
    -- logged as such.
    pub delete-serve_http :
        (s s' : BoltStore svc) (incoming : Incoming) (times : Readings) (request_id : String)
        (p : Proxy d)
        → (raw_token d.os.canonical incoming.headers == "") ≡ false
        → delete svc s (hash_token (raw_token d.os.canonical incoming.headers)) ≡ (s', ok tt)
        → (serve_http d
            (find_in now later)
            hash_token
            upstream_url
            h
            incoming
            times
            request_id
            p
            s').1
          ≡ refused
              (invalid_token incoming (hash_token (raw_token d.os.canonical incoming.headers)))
    unfolding serve_http
    delete-serve_http s s' incoming times request_id p some_token e =
        let hash = hash_token (raw_token d.os.canonical incoming.headers) in
        rw some_token (
          on_found-invalid_token incoming times request_id hash p
            (lookup_token svc s' hash now later)
            (delete-lookup_token svc laws s s' hash now later e))
