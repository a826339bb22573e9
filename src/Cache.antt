-- ===== src/Cache.antt =====
-- `pengwin/src/cache.rs`: a block device with a least-recently-used sector cache in front. The
-- mutex is held over each cache access, so the model is sequential; `lru::LruCache` is a parameter.

pub mod Transparent
use pengwin.Base.{
  ℕ, ◌==◌, ◌≡◌, ◌≢◌, ◌⊎◌, if◌then◌else◌, Option, none, some, List, Outcome, ok, err, panic, M, pure,
  done, fail, abort, reads, zoom,
}
use pengwin.Base.Stateful.{◌>>=◌, ◌>>◌}
use pengwin.Device.{BlockDevice, BlockDeviceError}

-- `lru::LruCache<u64, [u8; 512]>`: `touch` is the change of the order of use that `get` makes.
pub record LruCache : Type 1 where
  pub Cache : Type 0
  pub new : ℕ → Cache
  pub get : Cache → ℕ → Option (List ℕ)
  pub touch : ℕ → Cache → Cache
  pub put : ℕ → List ℕ → Cache → Cache
  pub pop : ℕ → Cache → Cache

-- The documented behaviour: an entry is what was last put under its key, unless it was evicted
-- to make room or popped.
pub record IsLru (L : LruCache) : Type 0 where
  pub get-new : (n k : ℕ) → L.get (L.new n) k ≡ none
  pub get-touch : (c : L.Cache) (k j : ℕ) → L.get (L.touch k c) j ≡ L.get c j
  pub get-put_self : (c : L.Cache) (k : ℕ) (v : List ℕ) → L.get (L.put k v c) k ≡ some v
  pub get-put_ne :
      (c : L.Cache) (k j : ℕ) (v : List ℕ)
      → k ≢ j
      → (L.get (L.put k v c) j ≡ none) ⊎ (L.get (L.put k v c) j ≡ L.get c j)
  pub get-pop_self : (c : L.Cache) (k : ℕ) → L.get (L.pop k c) k ≡ none
  pub get-pop_ne : (c : L.Cache) (k j : ℕ) → k ≢ j → L.get (L.pop k c) j ≡ L.get c j

module _ (L : LruCache) (D : BlockDevice) where
  pub record CachedBlockDevice : Type 0 where
    pub inner : D.Dev
    pub cache : L.Cache

  -- A capacity of 0 becomes 1.
  unfoldable pub new : D.Dev → ℕ → CachedBlockDevice
  new inner cache_size = record {
    inner = inner;
    cache = L.new (if cache_size == 0 then 1 else cache_size);
  }

  abbrev on_inner {ℓ} :
      {A : Type ℓ} → M D.Dev BlockDeviceError A → M CachedBlockDevice BlockDeviceError A
  on_inner = zoom (λ s. s.inner) (λ d s. record s { inner = d }) (λ e. e)

  abbrev on_cache : (L.Cache → L.Cache) → M CachedBlockDevice BlockDeviceError (Unit {0})
  on_cache f s = done tt (record s { cache = f s.cache })

  pub read_sector : ℕ → M CachedBlockDevice BlockDeviceError (List ℕ)
  read_sector sector_index s = elim (L.get s.cache sector_index) [
    | some cached_buf ↦ done cached_buf (record s { cache = L.touch sector_index s.cache })
    | none ↦
        (do
          buf ← reads (λ t. D.read_sector t.inner sector_index)
          on_cache (L.put sector_index buf)
          pure buf)
          s
  ]

  pub sector_count : CachedBlockDevice → ℕ
  sector_count s = D.sector_count s.inner

  -- The write goes first, then the entry is dropped.
  pub write_sector : ℕ → List ℕ → M CachedBlockDevice BlockDeviceError (Unit {0})
  write_sector sector_index buf = do
    on_inner (D.write_sector sector_index buf)
    on_cache (L.pop sector_index)

  pub flush : M CachedBlockDevice BlockDeviceError (Unit {0})
  flush = on_inner D.flush
