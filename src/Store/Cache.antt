-- ===== src/Store/Cache.antt =====
-- internal/store/bolt.go, `Lookup`: it reads the clock again before it drops an expired entry.
use tokenomics.Base.{String, Bool, not, ◌&&◌, Option, none, some, if◌then◌else◌}
use tokenomics.Base.Eq.{string_eq}
use tokenomics.Base.Dict.{lookup, erase}
use tokenomics.Policy.Regex.{Regex}
use tokenomics.Policy.Resolve.{Policy}
use tokenomics.Store.Services.{Services}
use tokenomics.Store.Bolt.{BoltStore, Entry}

module _ {re : Regex} (svc : Services re) where
  open svc use {Time, is_zero, after}

  unfoldable pub is_expired : Time → Entry svc → Bool
  is_expired now e = not (is_zero e.expires_at) && after now e.expires_at

  unfoldable pub lookup_token :
      BoltStore svc → String → Time → Time → BoltStore svc × Option (Policy re.Regexp)
  lookup_token s hash now later = elim (lookup hash s.cache) [
    | none ↦ (s, none)
    | some e ↦
        if is_expired now e
        then (if is_expired later e then record s { cache = erase hash s.cache } else s, none)
        else (s, some e.policy)
  ]
