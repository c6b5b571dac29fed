-- ===== src/Daemon/Blocks/Chunk.antt =====
-- One chunk of blocks: `getMaxBlocks` of MoneroDaemonRpc.ts.
use qwertycoin_ts.Common.{
  ℕ, zero, suc, ◌+◌, ◌-◌, ◌≤◌, ◌<◌, ◌≡◌, refl, ap, ◌∙◌, ◌⊎◌, inl, inr, false, List, [], ◌∷◌, map,
  some, arith, ltb, Bool-cases,
}
use qwertycoin_ts.Common.Result.{Result, ok}
use qwertycoin_ts.Daemon.Blocks.{
  BlockHeader, Block, DaemonError, Headers, heights_from, number_blocks, extend,
  get_blocks_by_height, get_blocks_by_range, get_max_blocks,
}
use qwertycoin_ts.Daemon.Blocks.Cache.{
  IsChain, AnswersHeaders, IsCoherent, get_block_header_by_height_cached_lem,
}

-- The size of some blocks from a height on.
unfoldable pub total_size : (ℕ → BlockHeader) → ℕ → ℕ → ℕ
total_size header_at zero n = 0
total_size header_at (suc k) n = (header_at n).size + total_size header_at k (suc n)

-- How many blocks a chunk takes: they fit, and all are taken or the next one does not fit.
pub record IsChunk (header_at : ℕ → BlockHeader) (rounds max_size start k : ℕ) : Type 0 where
  pub within : k ≤ rounds
  pub fits : total_size header_at k start ≤ max_size
  pub maximal :
      (k ≡ rounds)
      ⊎ (max_size ≡ total_size header_at k start)
      ⊎ (max_size < total_size header_at k start + (header_at (start + k)).size)

-- No block is larger than a request may be.
abbrev pub AreSmall : (ℕ → BlockHeader) → ℕ → Type 0
AreSmall header_at max_size = (n : ℕ) → (header_at n).size ≤ max_size

module _ (header_at : ℕ → BlockHeader) (chain : IsChain header_at)
    (headers_of : ℕ → ℕ → Result DaemonError (List BlockHeader))
    (answers : AnswersHeaders header_at headers_of) (max_height max_size : ℕ)
    (small : AreSmall header_at max_size) where
  -- Where the loop ends, given the size that is taken already.
  record IsExtended (rounds taken start k : ℕ) : Type 0 where
    within : k ≤ rounds
    fits : taken + total_size header_at k start ≤ max_size
    maximal :
        (k ≡ rounds)
        ⊎ (max_size ≡ taken + total_size header_at k start)
        ⊎ (max_size < taken + total_size header_at k start + (header_at (start + k)).size)

  IsExtended-suc :
      (rounds taken start k : ℕ)
      → IsExtended rounds (taken + (header_at start).size) (suc start) k
      → IsExtended (suc rounds) taken start (suc k)
  unfolding total_size
  IsExtended-suc rounds taken start k x =
      let next : start + suc k ≡ suc start + k = omega arith in
      record {
        within = omega (arith, x.within);
        fits = omega (arith, x.fits);
        maximal = rw next (ground (arith, x.maximal));
      }

  IsChunk-of_IsExtended :
      (rounds start k : ℕ) → IsExtended rounds 0 start k → IsChunk header_at rounds max_size start k
  IsChunk-of_IsExtended rounds start k x = record {
    within = x.within;
    fits = omega (arith, x.fits);
    maximal = ground (arith, x.maximal);
  }

  stop :
      (rounds : ℕ) (cache cache' : Headers) (taken start : ℕ)
      → taken ≤ max_size
      → IsCoherent header_at cache'
      → (max_size ≡ taken) ⊎ (max_size < taken + (header_at start).size)
      → extend headers_of rounds max_height max_size cache taken start ≡ ok (cache', start)
      → (cache' : Headers) × (k : ℕ) × (extend headers_of rounds max_height max_size cache taken
            start
          ≡ ok (cache', start + k))
        × IsCoherent header_at cache'
        × IsExtended rounds taken start k
  unfolding total_size
  stop rounds cache cache' taken start le c full run =
      let here : start ≡ start + 0 = omega arith in
      (
        cache',
        0,
        run ∙ ap (λ n. ok (cache', n)) here,
        c,
        record {
          within = omega arith;
          fits = omega arith;
          maximal = inr (rw (← here) (ground (arith, full)));
        },
      )

  extend_lem :
      (rounds : ℕ) (cache : Headers) (taken start : ℕ)
      → start + rounds ≡ suc max_height
      → taken ≤ max_size
      → IsCoherent header_at cache
      → (cache' : Headers) × (k : ℕ) × (extend headers_of rounds max_height max_size cache taken
            start
          ≡ ok (cache', start + k))
        × IsCoherent header_at cache'
        × IsExtended rounds taken start k
  unfolding extend total_size
  extend_lem zero cache taken start e le c =
      let here : start ≡ start + 0 = omega arith in
      (
        cache,
        0,
        ap (λ n. ok (cache, n)) here,
        c,
        record { within = omega arith; fits = omega arith; maximal = inl refl },
      )
  extend_lem (suc rounds) cache taken start e le c = elim (Bool-cases (ltb taken max_size)) [
    | inr full ↦
        let run : extend headers_of (suc rounds) max_height max_size cache taken start
            ≡ ok (cache, start) =
          rw full refl in
        stop (suc rounds) cache cache taken start le c (inl (ground arith)) run
    | inl room ↦
        let (cache', got, c') =
          get_block_header_by_height_cached_lem header_at chain headers_of cache start max_height
            answers c (omega arith) in
        let fine : ltb max_size (header_at start).size ≡ false = ground (arith, small start) in
        elim (Bool-cases (ltb max_size (taken + (header_at start).size))) [
          | inl over ↦
              let run : extend headers_of (suc rounds) max_height max_size cache taken start
                  ≡ ok (cache', start) =
                rw (room, got, fine, over) refl in
              stop (suc rounds) cache cache' taken start le c' (inr (ground arith)) run
          | inr fits ↦
              let (cache'', k, run, c'', x) =
                extend_lem rounds cache' (taken + (header_at start).size) (suc start) (omega arith)
                  (ground arith) c' in
              let next : suc start + k ≡ start + suc k = omega arith in
              let run' : extend headers_of (suc rounds) max_height max_size cache taken start
                  ≡ ok (cache'', suc start + k) =
                rw (room, got, fine, fits) run in
              (
                cache'',
                suc k,
                run' ∙ ap (λ n. ok (cache'', n)) next,
                c'',
                IsExtended-suc rounds taken start k x,
              )
        ]
  ]

-- Blocks from a height on, each with its height.
unfoldable pub block_range {ℓ} : {B : Type ℓ} → (ℕ → B) → ℕ → ℕ → List (Block B)
block_range block_at zero n = []
block_range block_at (suc k) n =
    record { height = some n; content = block_at n } ∷ block_range block_at k (suc n)

-- A daemon that answers with the blocks of some heights.
abbrev pub AnswersBlocks {ℓ} :
    {B : Type ℓ} → (ℕ → B) → (List ℕ → Result DaemonError (List B)) → Type ℓ
AnswersBlocks block_at blocks_of = (ns : List ℕ) → blocks_of ns ≡ ok (map block_at ns)

empty_range {ℓ} : {B : Type ℓ} (block_at : ℕ → B) (k n : ℕ) → k ≡ 0 → block_range block_at k n ≡ []
unfolding block_range
empty_range block_at k n e = rw e refl

number_blocks-range {ℓ} :
    {B : Type ℓ} (block_at : ℕ → B) (k n : ℕ)
    → number_blocks (heights_from k n) (map block_at (heights_from k n)) ≡ block_range block_at k n
unfolding number_blocks heights_from block_range
number_blocks-range block_at zero n = refl
number_blocks-range block_at (suc k) n =
    ap (◌∷◌ (record { height = some n; content = block_at n }))
      (number_blocks-range block_at k (suc n))

pub get_blocks_by_range_lem {ℓ} :
    {B : Type ℓ} (block_at : ℕ → B) (blocks_of : List ℕ → Result DaemonError (List B)) (s e : ℕ)
    → AnswersBlocks block_at blocks_of
    → get_blocks_by_range blocks_of s e ≡ ok (block_range block_at (suc e - s) s)
unfolding get_blocks_by_range get_blocks_by_height
get_blocks_by_range_lem block_at blocks_of s e answers =
    rw (answers (heights_from (suc e - s) s), number_blocks-range block_at (suc e - s) s) refl

-- `getMaxBlocks` returns the blocks from the start on, as many as fit into a request: their sizes
-- sum up to the maximum at most, and all up to the maximum height are taken, or the request is full,
-- or the next block does not fit; if the daemon answers with the headers and blocks that it is
-- asked for, no block alone is too large, and the cache holds the daemon's headers, as it does
-- afterwards.
pub get_max_blocks_lem {ℓ} :
    {B : Type ℓ} (header_at : ℕ → BlockHeader) (block_at : ℕ → B)
    (headers_of : ℕ → ℕ → Result DaemonError (List BlockHeader))
    (blocks_of : List ℕ → Result DaemonError (List B)) (cache : Headers)
    (start max_height max_size : ℕ)
    → IsChain header_at
    → AnswersHeaders header_at headers_of
    → AnswersBlocks block_at blocks_of
    → AreSmall header_at max_size
    → IsCoherent header_at cache
    → start ≤ suc max_height
    → (cache' : Headers) × (k : ℕ) × (get_max_blocks headers_of blocks_of cache start max_height
          max_size
        ≡ ok (cache', block_range block_at k start))
      × IsCoherent header_at cache'
      × IsChunk header_at (suc max_height - start) max_size start k
unfolding get_max_blocks
get_max_blocks_lem header_at block_at headers_of blocks_of cache start max_height max_size chain hs
      bs small c le =
    let (cache', k, run, c', x) =
      extend_lem header_at chain headers_of hs max_height max_size small (suc max_height - start)
        cache 0 start (omega arith) (omega arith) c in
    let chunk : IsChunk header_at (suc max_height - start) max_size start k =
      IsChunk-of_IsExtended header_at chain headers_of hs max_height max_size small
        (suc max_height - start) start k x in
    elim (Bool-cases (ltb start (start + k))) [
      | inl some_blocks ↦
          let count : suc (start + k - 1) - start ≡ k = ground arith in
          let range = get_blocks_by_range_lem block_at blocks_of start (start + k - 1) bs in
          (cache', k, rw (get_max_blocks, run, some_blocks, range, count) refl, c', chunk)
      | inr no_blocks ↦
          let empty = empty_range block_at k start (ground arith) in
          (cache', k, rw (get_max_blocks, run, no_blocks, empty) refl, c', chunk)
    ]
