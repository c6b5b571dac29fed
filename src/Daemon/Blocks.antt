-- ===== src/Daemon/Blocks.antt =====
-- Ranges of blocks of daemon/MoneroDaemonRpc.ts. What the daemon answers is a parameter: the headers
-- of a range of heights, and the blocks of a list of heights, as they are converted; the
-- transactions of a block are a part of it. `endHeight` is kept as its successor, since it starts
-- one below the first height.
pub mod Cache
pub mod Chunk
pub mod Chunked
use qwertycoin_ts.Common.{
  ℕ, zero, suc, ◌+◌, ◌-◌, Bool, List, [], ◌∷◌, ◌++◌, Option, none, some, min, ltb, ◌==◌,
  if◌then◌else◌,
}
use qwertycoin_ts.Common.Result.{Result, ok, err, ◌>>=◌}

-- `out_of_fuel` is not an error of the source: the loop of `getBlocksByRangeChunked` goes on.
pub data DaemonError : Type 0 where
  request_failed no_header block_too_big no_block out_of_fuel : DaemonError

pub record BlockHeader : Type 0 where
  pub height : ℕ
  pub size : ℕ

-- `setHeight(heights[blockIdx])`, which may be undefined.
pub record Block {ℓ} (B : Type ℓ) : Type ℓ where
  pub height : Option ℕ
  pub content : B

abbrev pub max_req_size : ℕ
max_req_size = 3000000

abbrev pub num_headers_per_req : ℕ
num_headers_per_req = 750

-- The object `cachedHeaders`, by height.
abbrev pub Headers : Type 0
Headers = ℕ → Option BlockHeader

abbrev pub cache_one : Headers → BlockHeader → Headers
cache_one cache h n = if n == h.height then some h else cache n

unfoldable pub cache_all : Headers → List BlockHeader → Headers
cache_all cache [] = cache
cache_all cache (h ∷ hs) = cache_all (cache_one cache h) hs

-- The numbers from a first one on.
unfoldable pub heights_from : ℕ → ℕ → List ℕ
heights_from zero height = []
heights_from (suc rounds) height = height ∷ heights_from rounds (suc height)

-- The loop over the blocks of the answer.
unfoldable pub number_blocks {ℓ} : {B : Type ℓ} → List ℕ → List B → List (Block B)
number_blocks heights [] = []
number_blocks [] (b ∷ bs) = record { height = none; content = b } ∷ number_blocks [] bs
number_blocks (h ∷ heights) (b ∷ bs) =
    record { height = some h; content = b } ∷ number_blocks heights bs

-- The height of the last block; an empty list has no last block.
unfoldable pub last_height {ℓ} : {B : Type ℓ} → List (Block B) → Result DaemonError (Option ℕ)
last_height [] = err no_block
last_height (b ∷ []) = ok b.height
last_height (b ∷ c ∷ bs) = last_height (c ∷ bs)

module _ (headers_of : ℕ → ℕ → Result DaemonError (List BlockHeader)) where
  unfoldable pub get_block_header_by_height_cached :
      Headers → ℕ → ℕ → Result DaemonError (Headers × Option BlockHeader)
  unfolding cache_all
  get_block_header_by_height_cached cache height max_height = elim (cache height) [
    | some h ↦ ok (cache, some h)
    | none ↦ do
      headers ← headers_of height (min max_height (height + num_headers_per_req - 1))
      ok (cache_all cache headers, cache_all cache headers height)
  ]

  -- The loop of `getMaxBlocks`: `next` is `endHeight + 1`, and `rounds` are the heights up to
  -- `maxHeight` that are left.
  unfoldable pub extend : ℕ → ℕ → ℕ → Headers → ℕ → ℕ → Result DaemonError (Headers × ℕ)
  unfolding get_block_header_by_height_cached
  extend zero max_height max_size cache req_size next = ok (cache, next)
  extend (suc rounds) max_height max_size cache req_size next =
      if ltb req_size max_size
      then get_block_header_by_height_cached cache next max_height >>= (λ (cache', found).
        elim found [
          | none ↦ err no_header
          | some header ↦
              if ltb max_size header.size
              then err block_too_big
              else if ltb max_size (req_size + header.size)
              then ok (cache', next)
              else extend rounds max_height max_size cache' (req_size + header.size) (suc next)
        ])
      else ok (cache, next)

module _ {ℓ} {B : Type ℓ} (blocks_of : List ℕ → Result DaemonError (List B)) where
  unfoldable pub get_blocks_by_height : List ℕ → Result DaemonError (List (Block B))
  unfolding number_blocks
  get_blocks_by_height heights = do blocks ← blocks_of heights; ok (number_blocks heights blocks)

  unfoldable pub get_blocks_by_range : ℕ → ℕ → Result DaemonError (List (Block B))
  unfolding get_blocks_by_height heights_from
  get_blocks_by_range start_height end_height =
      get_blocks_by_height (heights_from (suc end_height - start_height) start_height)

module _ {ℓ} {B : Type ℓ} (headers_of : ℕ → ℕ → Result DaemonError (List BlockHeader))
    (blocks_of : List ℕ → Result DaemonError (List B)) where
  unfoldable pub get_max_blocks :
      Headers → ℕ → ℕ → ℕ → Result DaemonError (Headers × List (Block B))
  unfolding extend get_blocks_by_range
  get_max_blocks cache start_height max_height max_size = do
    (cache', next) ←
        extend headers_of (suc max_height - start_height) max_height max_size cache 0 start_height
    if ltb start_height next
        then (do
          blocks ← get_blocks_by_range blocks_of start_height (next - 1)
          ok (cache', blocks))
        else ok (cache', [])

  -- The loop of `getBlocksByRangeChunked`: `next` is `lastHeight + 1`.
  unfoldable pub chunks :
      ℕ → Headers → List (Block B) → ℕ → ℕ → ℕ → Result DaemonError (Headers × List (Block B))
  unfolding get_max_blocks last_height
  chunks zero cache blocks next end_height max_size =
      if ltb end_height next then ok (cache, blocks) else err out_of_fuel
  chunks (suc fuel) cache blocks next end_height max_size =
      if ltb end_height next then ok (cache, blocks) else (do
        (cache', chunk) ← get_max_blocks cache next end_height max_size
        last ← last_height (blocks ++ chunk)
        elim last [
          | none ↦ ok (cache', blocks ++ chunk)
          | some height ↦ chunks fuel cache' (blocks ++ chunk) (suc height) end_height max_size
        ])

  unfoldable pub get_blocks_by_range_chunked :
      ℕ → Headers → ℕ → ℕ → ℕ → Result DaemonError (Headers × List (Block B))
  unfolding chunks
  get_blocks_by_range_chunked fuel cache start_height end_height max_size =
      chunks fuel cache [] start_height end_height max_size
