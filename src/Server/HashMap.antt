-- ===== src/Server/HashMap.antt =====
-- The calls of stb_ds.h's hash maps that faith-server/src/server/sess_registry.c makes: what it
-- documents of hmgetp_null, hmget, hmput, hmdel, hmlen and hmfree. The maps themselves are a parameter.
use faith.Common.{◌⊎◌, ◌≡◌, ◌≢◌, Bool, true, false, Option, none, some, List}

pub record HashMap (K V : Type 0) : Type 1 where
  pub Map : Type 0
  -- NULL, the map before its first put and after hmfree
  pub empty : Map
  -- hmgetp_null, and the value that it points to
  pub get : Map → K → Option V
  pub put : Map → K → V → Map
  pub del : Map → K → Map
  -- keys are compared byte by byte
  pub same : (k k' : K) → (k ≡ k') ⊎ (k ≢ k')
  -- hmlen(map) == 0
  pub is_empty : Map → Bool
  -- the values in the order of the array, hmlen(map) of them
  pub values : Map → List V
  pub get-empty : (k : K) → get empty k ≡ none
  pub get-put : (m : Map) (k : K) (v : V) → get (put m k v) k ≡ some v
  pub get-put_other : (m : Map) (k k' : K) (v : V) → k ≢ k' → get (put m k v) k' ≡ get m k'
  pub get-del : (m : Map) (k : K) → get (del m k) k ≡ none
  pub get-del_other : (m : Map) (k k' : K) → k ≢ k' → get (del m k) k' ≡ get m k'
  pub is_empty-none : (m : Map) (k : K) → is_empty m ≡ true → get m k ≡ none
  pub is_empty-some : (m : Map) (k : K) (v : V) → get m k ≡ some v → is_empty m ≡ false
