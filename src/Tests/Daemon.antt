-- ===== src/Tests/Daemon.antt =====
-- The blocks of a daemon at concrete inputs (MoneroDaemonRpc.ts).
use qwertycoin_ts.Common.{ℕ, suc, ◌-◌, ◌≡◌, refl, List, map, none, arith}
use qwertycoin_ts.Common.Result.{Result, ok}
use qwertycoin_ts.Daemon.Blocks.{
  BlockHeader, Block, DaemonError, Headers, heights_from, get_max_blocks, get_blocks_by_range,
  get_blocks_by_range_chunked, max_req_size,
}
use qwertycoin_ts.Daemon.Blocks.Cache.{IsCoherent}
use qwertycoin_ts.Daemon.Blocks.Chunk.{IsChunk, AreSmall, block_range, get_max_blocks_lem}
use qwertycoin_ts.Daemon.Blocks.Chunked.{get_blocks_by_range_chunked-get_blocks_by_range}

abbrev header_at : ℕ → BlockHeader
header_at n = record { height = n; size = 1200000 }

abbrev headers_of : ℕ → ℕ → Result DaemonError (List BlockHeader)
headers_of s e = ok (map header_at (heights_from (suc e - s) s))

abbrev block_at : ℕ → ℕ
block_at n = n

abbrev blocks_of : List ℕ → Result DaemonError (List ℕ)
blocks_of ns = ok (map block_at ns)

abbrev no_headers : Headers
no_headers n = none

no_headers-IsCoherent : IsCoherent header_at no_headers
no_headers-IsCoherent n h e = ground arith

all-AreSmall : AreSmall header_at max_req_size
all-AreSmall n = omega arith

get_max_blocks_lem_example :
    (cache' : Headers) × (k : ℕ) × (get_max_blocks headers_of blocks_of no_headers 5 9 max_req_size
      ≡ ok (cache', block_range block_at k 5))
    × IsCoherent header_at cache'
    × IsChunk header_at 5 max_req_size 5 k
get_max_blocks_lem_example =
    get_max_blocks_lem header_at block_at headers_of blocks_of no_headers 5 9 max_req_size
      (record { numbered = λ n. refl }) (λ s e le. refl) (λ ns. refl) all-AreSmall
      no_headers-IsCoherent (omega arith)

get_blocks_by_range_chunked-get_blocks_by_range_example :
    (cache' : Headers) × (blocks : List (Block ℕ)) × (get_blocks_by_range_chunked headers_of
        blocks_of 5 no_headers 5 9 max_req_size
      ≡ ok (cache', blocks))
    × (get_blocks_by_range blocks_of 5 9 ≡ ok blocks)
    × IsCoherent header_at cache'
get_blocks_by_range_chunked-get_blocks_by_range_example =
    get_blocks_by_range_chunked-get_blocks_by_range header_at block_at headers_of blocks_of
      no_headers 5 9 max_req_size 5 (record { numbered = λ n. refl }) (λ s e le. refl) (λ ns. refl)
      (omega arith) all-AreSmall no_headers-IsCoherent (omega arith) (omega arith)
