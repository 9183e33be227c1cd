-- ===== src/Manifest/Pieces.antt =====
-- `splitIntoChunks` and `nextChunk` of toolsupport/ninjautil/chunk_parser.go, and the parsing of the
-- chunks in file_parser.go.
use siso.Common.{
  ℕ, zero, suc, ◌+◌, Bool, true, not, ◌&&◌, ◌||◌, List, [], ◌∷◌, ◌++◌, Option, none, some, Bytes,
  ◌==◌, if◌then◌else◌, length, drop,
}
use siso.Manifest.Lexer.{is_escaped}
use siso.Manifest.Chunk.{Statement, parsed, failed, panicked, out_of_fuel, parse_chunk}

-- A chunk may start at this byte: it is no binding, comment or empty line.
abbrev pub is_start : ℕ → Bool
is_start d = not ((d == b' ') || (d == b'\t') || (d == b'#') || (d == b'\r') || (d == b'\n'))

-- The end of the file, or a byte where a chunk may start.
abbrev pub is_boundary : Bytes → Bool
is_boundary [] = true
is_boundary (d ∷ s) = is_start d

-- `nextChunk`: how far on the next boundary is, where `p2` and `p1` are the two bytes before (0 where
-- the file starts).
unfoldable pub next_chunk : ℕ → ℕ → Bytes → ℕ
next_chunk p2 p1 [] = 0
next_chunk p2 p1 (c ∷ s) =
    let rest = next_chunk p1 c s in
    if (c == b'\n') && not (is_escaped p2 p1) && is_boundary s then 1 else rest + 1

-- `nextChunk` at `k` bytes further on; the bytes before are collected on the way there. The end of the
-- file is a boundary.
unfoldable pub chunk_end : ℕ → ℕ → ℕ → Bytes → ℕ
chunk_end zero p2 p1 s = next_chunk p2 p1 s
chunk_end (suc k) p2 p1 [] = 0
chunk_end (suc k) p2 p1 (c ∷ s) = chunk_end k p1 c s + 1

-- The loop of `splitIntoChunks` from `start` on, where the rest of the buffer is `s`. No byte of the
-- chunk before escapes one of this chunk, since it ends with a line break.
unfoldable pub split_from : ℕ → ℕ → ℕ → Bytes → Option (List (ℕ × ℕ))
split_from zero size start s = none
split_from (suc fuel) size start [] = some []
split_from (suc fuel) size start (c ∷ s) =
    let n = chunk_end size 0 0 (c ∷ s) in
    elim (split_from fuel size (start + n) (drop n (c ∷ s))) [
      | none ↦ none
      | some cs ↦ some ((start, start + n) ∷ cs)
    ]

-- `splitIntoChunks` with chunks of so many bytes at least: the code takes 1 MiB, or the share of one
-- processor where that is more.
unfoldable pub split_into_chunks : ℕ → Bytes → Option (List (ℕ × ℕ))
split_into_chunks size buf = split_from (length buf + 1) size 0 buf

-- `parseChunks`: the statements of all chunks, where every chunk parses. Each chunk is parsed on its
-- own, so the order does not matter.
unfoldable pub parse_chunks : Bytes → List (ℕ × ℕ) → Option (List Statement)
parse_chunks buf [] = some []
parse_chunks buf ((start, end) ∷ cs) = elim (parse_chunk buf start end) [
  | parsed ch ↦ elim (parse_chunks buf cs) [ none ↦ none | some sts ↦ some (ch.statements ++ sts) ]
  | failed r ↦ none
  | panicked ↦ none
  | out_of_fuel ↦ none
]
