-- ===== src/Cache/Transparent.antt =====
-- The cached device and the device behind it cannot be told apart by any sequence of requests.
use pengwin.Base.{
  ℕ, ◌==◌, ◌≡◌, refl, inl, inr, Bool-cases, Outcome-cases, Run-cases, if◌then◌else◌, Option-cases,
  some, List, [], ◌∷◌, ok, M, Run, pure, done, fail, abort, reads, arith,
}
use pengwin.Base.Stateful.{◌>>=◌, ◌>>◌}
use pengwin.Device.{BlockDevice, BlockDeviceError, IsLawful}
use pengwin.Cache
use pengwin.Cache.{LruCache, IsLru, CachedBlockDevice}

-- A request of the layers above.
pub data Request : Type 0 where
  read : ℕ → Request
  write : ℕ → List ℕ → Request
  sync : Request

pub data Reply : Type 0 where
  sector : List ℕ → Reply
  ack : Reply

abbrev answer {ℓ κ} : {S : Type ℓ} {E : Type κ} → M S E (Unit {0}) → M S E Reply
answer m = do m; pure ack

module _ (D : BlockDevice) where
  -- A request served by the device itself.
  pub direct : Request → M D.Dev BlockDeviceError Reply
  direct (read i) = do b ← reads (λ d. D.read_sector d i); pure (sector b)
  direct (write i b) = answer (D.write_sector i b)
  direct sync = answer D.flush

  -- A session ends at the first error.
  pub direct_all : List Request → M D.Dev BlockDeviceError (List Reply)
  direct_all [] = pure []
  direct_all (r ∷ rs) = do a ← direct r; more ← direct_all rs; pure (a ∷ more)

module _ (L : LruCache) (D : BlockDevice) where
  pub cached : Request → M (CachedBlockDevice L D) BlockDeviceError Reply
  cached (read i) = do b ← Cache.read_sector L D i; pure (sector b)
  cached (write i b) = answer (Cache.write_sector L D i b)
  cached sync = answer (Cache.flush L D)

  pub cached_all : List Request → M (CachedBlockDevice L D) BlockDeviceError (List Reply)
  cached_all [] = pure []
  cached_all (r ∷ rs) = do a ← cached r; more ← cached_all rs; pure (a ∷ more)

  -- What is seen of a run without the cache: the replies or the error, and the device's state.
  abbrev pub forget {ℓ} :
      {A : Type ℓ} → Run (CachedBlockDevice L D) BlockDeviceError A → Run D.Dev BlockDeviceError A
  forget (done a s) = done a s.inner
  forget (fail e s) = fail e s.inner
  forget abort = abort

  -- Every cached sector is the device's.
  abbrev pub IsCoherent : CachedBlockDevice L D → Type 0
  IsCoherent s = (i : ℕ) (b : List ℕ) → L.get s.cache i ≡ some b → D.read_sector s.inner i ≡ ok b

  module _ (lru : IsLru L) (lawful : IsLawful D) where
    pub new-IsCoherent : (d : D.Dev) (size : ℕ) → IsCoherent (Cache.new L D d size)
    new-IsCoherent d size i b h =
        unfold Cache.new in cc (lru.get-new (if size == 0 then 1 else size) i)

    -- After a request that succeeds the replies agree and the cache is still coherent.
    forget-cached :
        (r : Request) (s : CachedBlockDevice L D)
        → IsCoherent s
        → forget (cached r s) ≡ direct D r s.inner
    unfolding cached direct Cache.read_sector Cache.write_sector Cache.flush
    forget-cached (read i) s c = elim (Option-cases (L.get s.cache i)) [
      | inl miss ↦ ground arith
      | inr (b, hit) ↦ ground (arith, c i b)
    ]
    forget-cached (write i b) s c = ground arith
    forget-cached sync s c = ground arith

    -- The entry that a miss adds is the sector that was read.
    put-IsCoherent :
        (s : CachedBlockDevice L D) (i : ℕ) (v : List ℕ)
        → IsCoherent s
        → D.read_sector s.inner i ≡ ok v
        → IsCoherent (record s { cache = L.put i v s.cache })
    put-IsCoherent s i v c e j b g = elim (Bool-cases (i == j)) [
      | inl same ↦ ground (arith, lru.get-put_self s.cache i v)
      | inr other ↦ ground (arith, lru.get-put_ne s.cache i j v, c j b)
    ]

    cached-IsCoherent :
        (r : Request) (s t : CachedBlockDevice L D) {a : Reply}
        → IsCoherent s
        → cached r s ≡ done a t
        → IsCoherent t
    unfolding cached Cache.read_sector Cache.write_sector Cache.flush
    cached-IsCoherent (read i) s t c h j b g = elim (Outcome-cases (D.read_sector s.inner i)) [
      | inl (v, e) ↦ ground (arith, put-IsCoherent s i v c e j b, c j b, lru.get-touch s.cache i j)
      | inr (inl (x, e)) ↦ ground (arith, c j b, lru.get-touch s.cache i j)
      | inr (inr e) ↦ ground (arith, c j b, lru.get-touch s.cache i j)
    ]
    cached-IsCoherent (write i x) s t c h j b g = elim (Bool-cases (i == j)) [
      | inl same ↦ ground (arith, lru.get-pop_self s.cache i)
      | inr other ↦
          ground
            (arith, c j b, lru.get-pop_ne s.cache i j, lawful.read-write_ne s.inner t.inner i j x)
    ]
    cached-IsCoherent sync s t c h j b g =
        ground (arith, c j b, lawful.read-flush s.inner t.inner j)

    -- From a coherent state every sequence of requests has the same replies, the same error if
    -- one fails, and the same device afterwards as without the cache, whatever entries the cache
    -- evicts.
    pub forget-cached_all :
        (rs : List Request) (s : CachedBlockDevice L D)
        → IsCoherent s
        → forget (cached_all rs s) ≡ direct_all D rs s.inner
    unfolding cached_all direct_all
    forget-cached_all [] s c = refl
    forget-cached_all (r ∷ rs) s c = elim (Run-cases (cached r s)) [
      | inl (a, t, e) ↦
          ground (arith, forget-cached r s c, forget-cached_all rs t (cached-IsCoherent r s t c e))
      | inr (inl (x, t, e)) ↦ ground (arith, forget-cached r s c)
      | inr (inr e) ↦ ground (arith, forget-cached r s c)
    ]
