-- ===== src/Tests/Cached.antt =====
-- A cache that holds one sector, in front of the device in memory.
use pengwin.Base.{
  ℕ, ◌==◌, ==_self, ◌≡◌, ◌≢◌, refl, inl, arith, if◌then◌else◌, Option, none, some, List, [], ◌∷◌,
  replicate,
}
use pengwin.Cache
use pengwin.Cache.{LruCache, IsLru}
use pengwin.Cache.Transparent.{
  Request, read, write, sync, forget, cached_all, direct_all, new-IsCoherent, forget-cached_all,
}
use pengwin.Tests.Memory.{memory, memory-IsLawful}
use pengwin.Tests.Image.{small_sectors}

unfoldable look : Option (ℕ × List ℕ) → ℕ → Option (List ℕ)
look none k = none
look (some (j, v)) k = if j == k then some v else none

unfoldable drop_key : ℕ → Option (ℕ × List ℕ) → Option (ℕ × List ℕ)
drop_key k none = none
drop_key k (some (j, v)) = if j == k then none else some (j, v)

abbrev one_entry : LruCache
one_entry = record {
  Cache = Option (ℕ × List ℕ);
  new = λ n. none;
  get = look;
  touch = λ k c. c;
  put = λ k v c. some (k, v);
  pop = drop_key;
}

look-drop_key_self : (c : Option (ℕ × List ℕ)) (k : ℕ) → look (drop_key k c) k ≡ none
unfolding look drop_key
look-drop_key_self none k = refl
look-drop_key_self (some (j, v)) k = ground arith

look-drop_key_ne : (c : Option (ℕ × List ℕ)) (k i : ℕ) → k ≢ i → look (drop_key k c) i ≡ look c i
unfolding look drop_key
look-drop_key_ne none k i ne = refl
look-drop_key_ne (some (j, v)) k i ne = ground arith

one_entry-IsLru : IsLru one_entry
unfolding look
one_entry-IsLru = record {
  get-new = λ n k. refl;
  get-touch = λ c k j. refl;
  get-put_self = λ c k v. rw (==_self k);
  get-put_ne = λ c k j v ne. inl (ground arith);
  get-pop_self = look-drop_key_self;
  get-pop_ne = look-drop_key_ne;
}

abbrev requests : List Request
requests = read 6 ∷ read 6 ∷ write 6 (replicate 512 7) ∷ read 6 ∷ sync ∷ read 8 ∷ []

forget-cached_all_example :
    forget one_entry memory
      (cached_all one_entry memory requests (Cache.new one_entry memory small_sectors 0))
    ≡ direct_all memory requests small_sectors
unfolding Cache.new
forget-cached_all_example =
    forget-cached_all one_entry memory one_entry-IsLru memory-IsLawful requests
      (Cache.new one_entry memory small_sectors 0)
      (new-IsCoherent one_entry memory one_entry-IsLru memory-IsLawful small_sectors 0)
