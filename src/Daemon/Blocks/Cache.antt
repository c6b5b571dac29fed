-- ===== src/Daemon/Blocks/Cache.antt =====
-- The cache of block headers (MoneroDaemonRpc.ts), over a daemon that answers with the headers of the
-- heights that were asked for.
use qwertycoin_ts.Common.{
  ℕ, suc, ◌+◌, ◌-◌, ◌≤◌, ◌≡◌, refl, sym, ap, ◌∙◌, List, [], ◌∷◌, map, some, min, arith, ◌==◌,
  Bool-cases, inl, inr, Option-cases,
}
use qwertycoin_ts.Common.Result.{Result, ok}
use qwertycoin_ts.Daemon.Blocks.{
  BlockHeader, DaemonError, Headers, cache_one, cache_all, heights_from, num_headers_per_req,
  get_block_header_by_height_cached,
}

-- Headers of a chain, by height.
pub record IsChain (header_at : ℕ → BlockHeader) : Type 0 where
  pub numbered : (n : ℕ) → (header_at n).height ≡ n

-- A daemon that answers with the headers of a range.
abbrev pub AnswersHeaders :
    (ℕ → BlockHeader) → (ℕ → ℕ → Result DaemonError (List BlockHeader)) → Type 0
AnswersHeaders header_at headers_of =
    (s e : ℕ) → s ≤ e → headers_of s e ≡ ok (map header_at (heights_from (suc e - s) s))

-- Every header in the cache is the daemon's.
abbrev pub IsCoherent : (ℕ → BlockHeader) → Headers → Type 0
IsCoherent header_at cache = (n : ℕ) (h : BlockHeader) → cache n ≡ some h → h ≡ header_at n

module _ (header_at : ℕ → BlockHeader) (chain : IsChain header_at) where
  cache_one-IsCoherent :
      (cache : Headers) (k : ℕ)
      → IsCoherent header_at cache
      → IsCoherent header_at (cache_one cache (header_at k))
  cache_one-IsCoherent cache k c n h e = elim (Bool-cases (n == (header_at k).height)) [
    | inl same ↦
        let found : some (header_at k) ≡ some h = rw same at e in
        let at_k : n ≡ k = ground (arith, chain.numbered k) in
        let eq : header_at k ≡ h = cc in sym eq ∙ ap header_at (sym at_k)
    | inr other ↦ c n h (rw other at e)
  ]

  cache_all-IsCoherent :
      (cache : Headers) (ns : List ℕ)
      → IsCoherent header_at cache
      → IsCoherent header_at (cache_all cache (map header_at ns))
  unfolding cache_all
  cache_all-IsCoherent cache [] c = c
  cache_all-IsCoherent cache (k ∷ ns) c =
      cache_all-IsCoherent (cache_one cache (header_at k)) ns (cache_one-IsCoherent cache k c)

  cache_all-keeps :
      (cache : Headers) (ns : List ℕ) (n : ℕ)
      → cache n ≡ some (header_at n)
      → cache_all cache (map header_at ns) n ≡ some (header_at n)
  unfolding cache_all
  cache_all-keeps cache [] n e = e
  cache_all-keeps cache (k ∷ ns) n e =
      cache_all-keeps (cache_one cache (header_at k)) ns n
        (elim (Bool-cases (n == (header_at k).height)) [
          | inl same ↦ let at_k : k ≡ n = ground (arith, chain.numbered k) in rw (same, at_k) refl
          | inr other ↦ rw other e
        ])

  cache_all-first :
      (cache : Headers) (k n : ℕ)
      → cache_all cache (map header_at (heights_from (suc k) n)) n ≡ some (header_at n)
  unfolding cache_all heights_from
  cache_all-first cache k n =
      cache_all-keeps (cache_one cache (header_at n)) (heights_from k (suc n)) n
        (ground (arith, chain.numbered n))

  pub get_block_header_by_height_cached_lem :
      (headers_of : ℕ → ℕ → Result DaemonError (List BlockHeader)) (cache : Headers)
      (n max_height : ℕ)
      → AnswersHeaders header_at headers_of
      → IsCoherent header_at cache
      → n ≤ max_height
      → (cache' : Headers) × (get_block_header_by_height_cached headers_of cache n max_height
          ≡ ok (cache', some (header_at n)))
        × IsCoherent header_at cache'
  unfolding get_block_header_by_height_cached
  get_block_header_by_height_cached_lem headers_of cache n max_height a c le =
      elim (Option-cases (cache n)) [
        | inr (h, e) ↦
            let run : get_block_header_by_height_cached headers_of cache n max_height
                ≡ ok (cache, some (header_at n)) =
              rw (get_block_header_by_height_cached, e, c n h e) refl in
            (cache, run, c)
        | inl e ↦
            let last = min max_height (n + num_headers_per_req - 1) in
            let ns = heights_from (suc last - n) n in
            let cache' = cache_all cache (map header_at ns) in
            let rounds : suc last - n ≡ suc (last - n) = omega arith in
            let found : cache' n ≡ some (header_at n) =
              rw rounds (cache_all-first cache (last - n) n) in
            let answer : headers_of n last ≡ ok (map header_at ns) = a n last (omega arith) in
            let run : get_block_header_by_height_cached headers_of cache n max_height
                ≡ ok (cache', some (header_at n)) =
              rw (get_block_header_by_height_cached, e, answer, found) refl in
            (cache', run, cache_all-IsCoherent cache ns c)
      ]
