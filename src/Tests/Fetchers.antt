-- ===== src/Tests/Fetchers.antt =====
-- Runs of the fetchers of batch/chunker.go.
use proxy_common.Common.{
  ℕ, suc, ◌≡◌, true, none, some, List, [], ◌∷◌, map, arith, pos, concat, length,
}
use proxy_common.Common.Bytes.{Bytes, codes, bytes_has_eq}
use proxy_common.Common.GoMap.{GoMap, insert}
use proxy_common.Batch.{Env, ok, process_in_chunks}
use proxy_common.Batch.Chunks.{AreChunks}
use proxy_common.Batch.Refine.{chunks_of, visit_all, process_in_chunks_lem}

abbrev words : List Bytes
words = codes "btc" ∷ codes "eth" ∷ codes "dogecoin" ∷ codes "snt" ∷ []

-- a fetcher that answers with the length of each item; its world counts the calls
abbrev list_env : Env ℕ (List ℕ) Bytes
list_env = record { fetch = λ chunk w. (ok (map length chunk), suc w); pause = λ w. (none, w) }

lengths : List Bytes → GoMap Bytes ℕ
lengths [] = []
lengths (x ∷ xs) = insert x (length x) (lengths xs)

abbrev map_env : Env ℕ (GoMap Bytes ℕ) Bytes
map_env = record { fetch = λ chunk w. (ok (lengths chunk), suc w); pause = λ w. (none, w) }

process_in_chunks_example :
    (concat (chunks_of (pos 2) (pos 10) words) ≡ words)
    × AreChunks (pos 2) (pos 10) (chunks_of (pos 2) (pos 10) words)
    × (process_in_chunks list_env (pos 5) (pos 2) (pos 10) words 0
        ≡ some (visit_all list_env (pos 5) true (chunks_of (pos 2) (pos 10) words) 0))
process_in_chunks_example =
    process_in_chunks_lem list_env (pos 5) (pos 2) (pos 10) (omega arith) words 0
