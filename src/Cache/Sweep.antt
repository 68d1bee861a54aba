-- ===== src/Cache/Sweep.antt =====
-- `Cache::sweep_expired` of mdns-proto/src/cache.rs.
use hick.Prelude.{
  ℕ, ◌+◌, ◌<◌, ◌≡◌, refl, sym, ap, ◌∙◌, arith, Bool, not, List, [], ◌∷◌, length, leb, inl, inr,
  Option-cases, saturating_add, IsSlice,
}
use hick.Cache.{CacheEntry, Cache, remove_all, sweep_expired}
use hick.Cache.Lists.{keep, keys_where}
use hick.Cache.Lists.Pruned.{
  pruned, pruned-keys_where, length-without-found, length-without-missing, length-keys_where,
}
use hick.Cache.Backing.{Pool, IsPool}

module _ {P : Type 0} (pool : Pool P CacheEntry) (laws : IsPool pool) where
  iter-remove_all :
      (ks : List ℕ) (entries : P) (n : ℕ)
      → pool.iter (remove_all pool ks entries n).0 ≡ pruned ks (pool.iter entries)
  unfolding remove_all pruned
  iter-remove_all [] entries n = refl
  iter-remove_all (k ∷ ks) entries n =
      iter-remove_all ks (pool.try_remove entries k).0 _
      ∙ ap (pruned ks) (laws.try_remove-iter entries k)

  -- The count of a sweep is exact while it cannot saturate.
  remove_all_count :
      (ks : List ℕ) (entries : P) (n : ℕ)
      → n + length ks < 0x8000000000000000
      → (remove_all pool ks entries n).1 + length (pool.iter (remove_all pool ks entries n).0)
        ≡ n + length (pool.iter entries)
  unfolding remove_all
  remove_all_count [] entries n fits = refl
  remove_all_count (k ∷ ks) entries n fits =
      let shrunk = ap length (laws.try_remove-iter entries k) in
      let found = laws.try_remove-lookup entries k in
      elim (Option-cases (pool.try_remove entries k).1) [
        | inl e ↦
            let same = length-without-missing k (pool.iter entries) (sym found ∙ e) in
            let rest = remove_all_count ks (pool.try_remove entries k).0 n (omega arith) in
            rw (remove_all, e) (omega (arith, same, shrunk, rest))
        | inr (v, e) ↦
            let less =
              length-without-found k v (pool.iter entries) (laws.iter-Distinct entries)
                (sym found ∙ e) in
            let rest =
              remove_all_count ks (pool.try_remove entries k).0 (saturating_add n 1)
                (omega arith) in
            rw (remove_all, e) (omega (arith, less, shrunk, rest))
      ]

  -- A sweep leaves exactly the entries that have not expired, in their order and with their keys,
  -- it answers how many it removed (their number fits in an isize), and it leaves the cap.
  pub sweep_expired-keep :
      (c : Cache P) (now : ℕ)
      → IsSlice (pool.iter c.entries)
      → let (c', removed) = sweep_expired pool c now in
        (pool.iter c'.entries ≡ keep (λ e. not (leb e.expires_at now)) (pool.iter c.entries))
        × (removed + length (pool.iter c'.entries) ≡ length (pool.iter c.entries))
        × (c'.max_entries ≡ c.max_entries)
  unfolding sweep_expired
  sweep_expired-keep c now fits =
      let test : CacheEntry → Bool = λ e. leb e.expires_at now in
      let l = pool.iter c.entries in
      let ks = keys_where test l in
      (
        iter-remove_all ks c.entries 0 ∙ pruned-keys_where test l (laws.iter-Distinct c.entries),
        omega (arith, remove_all_count ks c.entries 0 (omega (arith, length-keys_where test l))),
        refl,
      )
