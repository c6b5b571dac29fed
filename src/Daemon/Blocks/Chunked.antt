-- ===== src/Daemon/Blocks/Chunked.antt =====
-- `getBlocksByRangeChunked` of MoneroDaemonRpc.ts against `getBlocksByRange`.
use mathlib.Core.List.{append_assoc, append-nil}
use qwertycoin_ts.Common.{
  ℕ, zero, suc, ◌+◌, ◌-◌, ◌≤◌, ◌<◌, ◌≡◌, refl, sym, ap, ◌∙◌, true, false, List, [], ◌∷◌, ◌++◌, some,
  arith, ltb,
}
use qwertycoin_ts.Common.Result.{Result, ok}
use qwertycoin_ts.Daemon.Blocks.{
  BlockHeader, Block, DaemonError, Headers, last_height, get_blocks_by_range, chunks,
  get_blocks_by_range_chunked,
}
use qwertycoin_ts.Daemon.Blocks.Cache.{IsChain, AnswersHeaders, IsCoherent}
use qwertycoin_ts.Daemon.Blocks.Chunk.{
  total_size, IsChunk, AreSmall, block_range, AnswersBlocks, get_blocks_by_range_lem,
  get_max_blocks_lem,
}

module _ {ℓ} {B : Type ℓ} (block_at : ℕ → B) where
  block_range-append :
      (j k n : ℕ)
      → block_range block_at (j + k) n ≡ block_range block_at j n ++ block_range block_at k (n + j)
  unfolding block_range
  block_range-append zero k n =
      let none_left : 0 + k ≡ k = omega arith in
      let here : n + 0 ≡ n = omega arith in rw (none_left, here) refl
  block_range-append (suc j) k n =
      let rest : suc j + k ≡ suc (j + k) = omega arith in
      let next : n + suc j ≡ suc n + j = omega arith in
      rw (rest, next)
        (ap (◌∷◌ (record { height = some n; content = block_at n }))
          (block_range-append j k (suc n)))

  last_height-append :
      (bs : List (Block B)) (c : Block B) (cs : List (Block B))
      → last_height (bs ++ c ∷ cs) ≡ last_height (c ∷ cs)
  unfolding last_height
  last_height-append [] c cs = refl
  last_height-append (b ∷ []) c cs = refl
  last_height-append (b ∷ d ∷ bs) c cs = last_height-append (d ∷ bs) c cs

  last_height-range : (k n : ℕ) → last_height (block_range block_at (suc k) n) ≡ ok (some (n + k))
  unfolding last_height block_range
  last_height-range zero n = ap (λ h. ok (some h)) (omega arith)
  last_height-range (suc k) n = last_height-range k (suc n) ∙ ap (λ h. ok (some h)) (omega arith)

  last_height-chunk :
      (bs : List (Block B)) (k n : ℕ)
      → 0 < k
      → last_height (bs ++ block_range block_at k n) ≡ ok (some (n + k - 1))
  unfolding block_range
  last_height-chunk bs zero n h = absurd (omega (arith, h))
  last_height-chunk bs (suc k) n h =
      last_height-append bs (record { height = some n; content = block_at n })
        (block_range block_at k (suc n))
      ∙ last_height-range k n
      ∙ ap (λ h. ok (some h)) (omega arith)

-- A chunk is not empty.
chunk_positive :
    (header_at : ℕ → BlockHeader) (rounds max_size start k : ℕ)
    → 0 < rounds
    → 0 < max_size
    → AreSmall header_at max_size
    → IsChunk header_at rounds max_size start k
    → 0 < k
unfolding total_size
chunk_positive header_at rounds max_size start zero r m small x =
    ground (arith, small (start + 0), x.maximal)
chunk_positive header_at rounds max_size start (suc k) r m small x = omega arith

module _ {ℓ} {B : Type ℓ} (header_at : ℕ → BlockHeader) (block_at : ℕ → B)
    (headers_of : ℕ → ℕ → Result DaemonError (List BlockHeader))
    (blocks_of : List ℕ → Result DaemonError (List B)) (chain : IsChain header_at)
    (hs : AnswersHeaders header_at headers_of) (bs : AnswersBlocks block_at blocks_of)
    (end_height max_size : ℕ) (positive : 0 < max_size) (small : AreSmall header_at max_size) where
  chunks_end :
      (fuel : ℕ) (cache : Headers) (blocks : List (Block B)) (next : ℕ)
      → ltb end_height next ≡ true
      → chunks headers_of blocks_of fuel cache blocks next end_height max_size ≡ ok (cache, blocks)
  unfolding chunks
  chunks_end zero cache blocks next e = rw e refl
  chunks_end (suc fuel) cache blocks next e = rw e refl

  -- The rest of the range behind a chunk.
  joined :
      (blocks : List (Block B)) (k rounds next : ℕ)
      → 0 < k
      → k ≤ rounds
      → (blocks ++ block_range block_at k next)
          ++ block_range block_at (rounds - k) (suc (next + k - 1))
        ≡ blocks ++ block_range block_at rounds next
  joined blocks k rounds next h le =
      let behind : suc (next + k - 1) ≡ next + k = omega arith in
      let all_rounds : k + (rounds - k) ≡ rounds = omega arith in
      append_assoc blocks _ _
      ∙ ap (◌++◌ blocks) (
          rw behind (sym (block_range-append block_at k (rounds - k) next))
          ∙ ap (λ j. block_range block_at j next) all_rounds)

  chunks_lem :
      (fuel rounds : ℕ) (cache : Headers) (blocks : List (Block B)) (next : ℕ)
      → rounds ≤ fuel
      → next + rounds ≡ suc end_height
      → IsCoherent header_at cache
      → (cache' : Headers) × (chunks headers_of blocks_of fuel cache blocks next end_height max_size
          ≡ ok (cache', blocks ++ block_range block_at rounds next))
        × IsCoherent header_at cache'
  unfolding chunks block_range
  chunks_lem fuel zero cache blocks next enough e c =
      let over = chunks_end fuel cache blocks next (ground arith) in
      (cache, over ∙ ap (λ b. ok (cache, b)) (sym (append-nil blocks)), c)
  chunks_lem zero (suc rounds) cache blocks next enough e c = absurd (omega (arith, enough))
  chunks_lem (suc fuel) (suc rounds) cache blocks next enough e c =
      let going : ltb end_height next ≡ false = ground arith in
      let (cache', k, run, c', x) =
        get_max_blocks_lem header_at block_at headers_of blocks_of cache next end_height max_size
          chain hs bs small c (omega arith) in
      let k_positive =
        chunk_positive header_at (suc end_height - next) max_size next k (omega arith) positive
          small x in
      let k_within : k ≤ suc rounds = omega (arith, x.within) in
      let last = last_height-chunk block_at blocks k next k_positive in
      let (cache'', rest, c'') =
        chunks_lem fuel (suc rounds - k) cache' (blocks ++ block_range block_at k next)
          (suc (next + k - 1)) (omega arith) (omega arith) c' in
      let all_run : chunks headers_of blocks_of (suc fuel) cache blocks next end_height max_size
          ≡ ok (
            cache'',
            (blocks ++ block_range block_at k next)
                ++ block_range block_at (suc rounds - k) (suc (next + k - 1)),
          ) =
        rw (going, run, last) rest in
      (
        cache'',
        all_run ∙ ap (λ b. ok (cache'', b)) (joined blocks k (suc rounds) next k_positive k_within),
        c'',
      )

-- If the daemon answers with the headers and blocks that it is asked for, every block fits into a
-- request, and the cache holds the daemon's headers, then `getBlocksByRangeChunked` ends after at
-- most one chunk for each block, and returns what `getBlocksByRange` returns.
pub get_blocks_by_range_chunked-get_blocks_by_range {ℓ} :
    {B : Type ℓ} (header_at : ℕ → BlockHeader) (block_at : ℕ → B)
    (headers_of : ℕ → ℕ → Result DaemonError (List BlockHeader))
    (blocks_of : List ℕ → Result DaemonError (List B)) (cache : Headers)
    (start_height end_height max_size fuel : ℕ)
    → IsChain header_at
    → AnswersHeaders header_at headers_of
    → AnswersBlocks block_at blocks_of
    → 0 < max_size
    → AreSmall header_at max_size
    → IsCoherent header_at cache
    → start_height ≤ suc end_height
    → suc end_height - start_height ≤ fuel
    → (cache' : Headers) × (blocks : List (Block B)) × (get_blocks_by_range_chunked headers_of
          blocks_of fuel cache start_height end_height max_size
        ≡ ok (cache', blocks))
      × (get_blocks_by_range blocks_of start_height end_height ≡ ok blocks)
      × IsCoherent header_at cache'
unfolding get_blocks_by_range_chunked
get_blocks_by_range_chunked-get_blocks_by_range header_at block_at headers_of blocks_of cache
      start_height end_height max_size fuel chain hs bs positive small c le enough =
    let rounds = suc end_height - start_height in
    let (cache', run, c') =
      chunks_lem header_at block_at headers_of blocks_of chain hs bs end_height max_size positive
        small fuel rounds cache [] start_height enough (omega arith) c in
    (
      cache',
      block_range block_at rounds start_height,
      run,
      get_blocks_by_range_lem block_at blocks_of start_height end_height bs,
      c',
    )
