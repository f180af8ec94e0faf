-- ===== src/Session/Memory.antt =====
-- internal/session/memory.go: the store that keeps the counters in a map under a mutex.
use tokenomics.Base.{String, ◌≡◌, refl, [], Result, ok, arith, if◌then◌else◌}
use tokenomics.Base.Eq.{string_eq, ◌==◌}
use tokenomics.Base.Word.{Int64, add64}
use tokenomics.Base.Dict.{
  Dict, lookup, insert, erase, or_default, lookup-insert, lookup-insert_self, lookup-erase,
}
use tokenomics.Session.Store.{SessionStore, Laws}

pub record MemoryStore : Type 0 where
  pub usage : Dict String Int64

unfoldable pub new_memory_store : MemoryStore
new_memory_store = record { usage = [] }

-- `m.usage[tokenHash]` is zero where the key is missing.
unfoldable pub read : MemoryStore → String → Int64
read m token_hash = or_default 0 (lookup token_hash m.usage)

unfoldable pub get_usage : MemoryStore → String → Result ⊥ Int64
unfolding read
get_usage m token_hash = ok (read m token_hash)

unfoldable pub add_usage : MemoryStore → String → Int64 → MemoryStore × Result ⊥ Int64
unfolding read
add_usage m token_hash count =
    let m' : MemoryStore = record {
      usage = insert token_hash (add64 (read m token_hash) count) m.usage;
    } in
    (m', ok (read m' token_hash))

unfoldable pub reset : MemoryStore → String → MemoryStore × Result ⊥ (Unit {0})
reset m token_hash = (record { usage = erase token_hash m.usage }, ok tt)

abbrev pub memory_sessions : SessionStore
memory_sessions = record {
  State = MemoryStore;
  Error = ⊥;
  get_usage = get_usage;
  add_usage = add_usage;
  reset = reset;
}

pub get_lem : (m : MemoryStore) (k : String) → get_usage m k ≡ ok (read m k)
unfolding get_usage
get_lem m k = refl

pub add_result :
    (m : MemoryStore) (k : String) (n : Int64) → (add_usage m k n).1 ≡ ok (add64 (read m k) n)
unfolding add_usage
add_result m k n = rw (lookup-insert_self k (add64 (read m k) n) m.usage)

pub add_state :
    (m : MemoryStore) (k j : String) (n : Int64)
    → read (add_usage m k n).0 j ≡ (if k == j then add64 (read m k) n else read m j)
unfolding add_usage
add_state m k j n = ground (arith, lookup-insert k j (add64 (read m k) n) m.usage)

pub reset_result : (m : MemoryStore) (k : String) → (reset m k).1 ≡ ok tt
unfolding reset
reset_result m k = refl

pub reset_state :
    (m : MemoryStore) (k j : String) → read (reset m k).0 j ≡ (if k == j then 0 else read m j)
unfolding reset read
reset_state m k j = ground (arith, lookup-erase k j m.usage)

-- The memory store implements the interface.
abbrev pub memory_laws : Laws memory_sessions
memory_laws = record {
  usage = read;
  get_lem = get_lem;
  add_result = add_result;
  add_state = add_state;
  reset_result = reset_result;
  reset_state = reset_state;
}

-- An addition returns the sum, as int64 adds, of what was on record for the token hash and the count,
-- reading the hash afterwards gives that sum, and every other hash reads as before; a reset makes
-- the hash read zero and keeps every other one.
add_usage-reset :
    (m : MemoryStore) (k j : String) (n : Int64)
    → ((add_usage m k n).1 ≡ ok (add64 (read m k) n))
      × (read (add_usage m k n).0 j ≡ (if k == j then add64 (read m k) n else read m j))
      × (read (reset m k).0 j ≡ (if k == j then 0 else read m j))
add_usage-reset m k j n = (add_result m k n, add_state m k j n, reset_state m k j)
