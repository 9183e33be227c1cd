-- ===== src/Manifest/Chunk.antt =====
-- `parseChunk` of toolsupport/ninjautil/chunk_parser.go and statement.go: a chunk of a file is cut into
-- statements.
use siso.Common.{
  ℕ, zero, suc, ◌+◌, Bool, false, ◌||◌, List, [], ◌∷◌, ◌++◌, Option, none, some, Bytes, codes, ltb,
  ◌==◌, if◌then◌else◌, length, take, drop,
}
use siso.Manifest.Lexer.{find_next_line, skip_spaces}

pub data StatementType : Type 0 where
  statement_none var_decl pool pool_var rule rule_var build build_var : StatementType
  default_targets include subninja : StatementType

-- The position in the file (`pos`) is set later.
pub record Statement : Type 0 where
  pub kind : StatementType
  pub s : ℕ
  pub v : ℕ
  pub e : ℕ

-- How many statements of each kind the allocation has to provide for.
pub record Counts : Type 0 where
  pub nvar : ℕ
  pub nrule : ℕ
  pub nrulevar : ℕ
  pub nbuild : ℕ
  pub nbuildvar : ℕ
  pub npool : ℕ
  pub npoolvar : ℕ
  pub ndefault : ℕ
  pub ninclude : ℕ
  pub nsubninja : ℕ
  pub ncomment : ℕ

pub record Chunk : Type 0 where
  pub statements : List Statement
  pub last : StatementType
  pub counts : Counts

pub data Reason : Type 0 where
  unexpected_indent wrong_var_binding wrong_var_decl : Reason

-- What one round of the loop does: it goes on so many bytes further, or it returns an error, or an
-- index is out of range.
pub data Round : Type 0 where
  advance : ℕ → Chunk → Round
  fails : Reason → Round
  panics : Round

-- `bytes.IndexByte`
unfoldable pub index_byte : ℕ → Bytes → Option ℕ
index_byte b [] = none
index_byte b (c ∷ s) =
    let rest = index_byte b s in
    if c == b then some 0 else elim rest [ none ↦ none | some j ↦ some (j + 1) ]

pub data Keyword : Type 0 where
  out_of_range no_keyword : Keyword
  keyword : ℕ → Keyword

-- `isStatement`; the offset after the keyword is counted from its start.
unfoldable pub is_statement : Bytes → Bytes → ℕ → Keyword
is_statement [] [] n = out_of_range
is_statement [] (c ∷ s) n = if (c == b' ') || (c == b'\t') then keyword (n + 1) else no_keyword
is_statement (b ∷ name) [] n = no_keyword
is_statement (b ∷ name) (c ∷ s) n =
    let rest = is_statement name s (n + 1) in if c == b then rest else no_keyword

unfoldable pub count_kind : StatementType → Counts → Counts
count_kind statement_none k = k
count_kind var_decl k = record k { nvar = k.nvar + 1 }
count_kind pool k = record k { npool = k.npool + 1 }
count_kind pool_var k = record k { npoolvar = k.npoolvar + 1 }
count_kind rule k = record k { nrule = k.nrule + 1 }
count_kind rule_var k = record k { nrulevar = k.nrulevar + 1 }
count_kind build k = record k { nbuild = k.nbuild + 1 }
count_kind build_var k = record k { nbuildvar = k.nbuildvar + 1 }
count_kind default_targets k = record k { ndefault = k.ndefault + 1 }
count_kind include k = record k { ninclude = k.ninclude + 1 }
count_kind subninja k = record k { nsubninja = k.nsubninja + 1 }

-- The statement of a binding that follows a statement of this kind.
unfoldable pub var_of : StatementType → Option StatementType
var_of build = some build_var
var_of pool = some pool_var
var_of rule = some rule_var
var_of _ = none

-- A statement that is not indented.
abbrev pub add_statement : StatementType → ℕ → ℕ → ℕ → Chunk → Chunk
add_statement kind i v n ch = record {
  statements = ch.statements ++ (record { kind = kind; s = i; v = i + v; e = i + n } ∷ []);
  last = kind;
  counts = count_kind kind ch.counts;
}

-- `buf[i+j] == '#'`; the caller has seen that the byte is there.
unfoldable pub is_comment_at : ℕ → Bytes → Bool
is_comment_at j [] = false
is_comment_at zero (c ∷ s) = c == b'#'
is_comment_at (suc j) (c ∷ s) = is_comment_at j s

-- An indented line with no `=` has to be empty or a comment.
unfoldable pub no_binding : ℕ → Bytes → Chunk → Round
no_binding n line ch =
    let j = skip_spaces 0 line in
    if (j == length line) || is_comment_at j line then advance n ch else fails wrong_var_binding

-- An indented statement; the last statement stays as it is.
abbrev pub add_binding : StatementType → ℕ → ℕ → ℕ → Chunk → Chunk
add_binding kind i v n ch = record ch {
  statements = ch.statements ++ (record { kind = kind; s = i; v = i + v; e = i + n } ∷ []);
  counts = record ch.counts { nvar = ch.counts.nvar + 1 };
}

unfoldable pub binding_line : StatementType → ℕ → ℕ → Bytes → Option ℕ → Chunk → Round
binding_line kind i n line none ch = no_binding n line ch
binding_line kind i n line (some v) ch = advance n (add_binding kind i v n ch)

-- An indented line. It is counted as a binding before its `=` is looked for.
unfoldable pub indented : Option StatementType → ℕ → ℕ → Bytes → Chunk → Round
indented none i n line ch = fails unexpected_indent
indented (some kind) i n line ch =
    binding_line kind i n line (index_byte b'=' line)
      (record ch { counts = count_kind kind ch.counts })

unfoldable pub comment : Option ℕ → Chunk → Round
comment none ch =
    advance 0 (record ch { counts = record ch.counts { ncomment = ch.counts.ncomment + 1 } })
comment (some j) ch =
    advance (j + 1) (record ch { counts = record ch.counts { ncomment = ch.counts.ncomment + 1 } })

-- The `=` of a declaration is looked for in the whole rest of the buffer.
unfoldable pub declaration : Option ℕ → ℕ → ℕ → Chunk → Round
declaration none i n ch = fails wrong_var_decl
declaration (some v) i n ch = advance n (add_statement var_decl i v n ch)

unfoldable pub keyword_line : StatementType → Keyword → ℕ → ℕ → Option ℕ → Chunk → Round
keyword_line kind out_of_range i n eq ch = panics
keyword_line kind no_keyword i n eq ch = declaration eq i n ch
keyword_line kind (keyword v) i n eq ch = advance n (add_statement kind i v n ch)

-- A line that starts with `c` at position `i`; `buf` is the buffer from there on.
unfoldable pub statement_line : ℕ → ℕ → ℕ → Bytes → Chunk → Round
statement_line c i n buf ch =
    let eq = index_byte b'=' buf in
    if c == b'b'
    then keyword_line build (is_statement (codes "build") buf 0) i n eq ch
    else if c == b'd'
    then keyword_line default_targets (is_statement (codes "default") buf 0) i n eq ch
    else if c == b'i'
    then keyword_line include (is_statement (codes "include") buf 0) i n eq ch
    else if c == b'p'
    then keyword_line pool (is_statement (codes "pool") buf 0) i n eq ch
    else if c == b'r'
    then keyword_line rule (is_statement (codes "rule") buf 0) i n eq ch
    else if c == b's'
    then keyword_line subninja (is_statement (codes "subninja") buf 0) i n eq ch
    else declaration eq i n ch

-- One round at the line `c ∷ s`.
unfoldable pub parse_line : ℕ → ℕ → Bytes → Chunk → Round
parse_line i c s ch =
    let n = find_next_line (c ∷ s) in
    if (c == b'\n') || (c == b'\r')
    then advance 1 ch
    else if c == b'#'
    then comment (index_byte b'\n' s) ch
    else if (c == b' ') || (c == b'\t')
    then indented (var_of ch.last) i n (take n (c ∷ s)) ch
    else statement_line c i n (c ∷ s) ch

pub data Parsed : Type 0 where
  parsed : Chunk → Parsed
  failed : Reason → Parsed
  panicked out_of_fuel : Parsed

-- The loop from position `i` up to `end`; `buf` is the buffer from `i` on.
unfoldable pub parse_lines : ℕ → ℕ → ℕ → Bytes → Chunk → Parsed
parse_lines zero end i buf ch = out_of_fuel
parse_lines (suc fuel) end i [] ch = parsed ch
parse_lines (suc fuel) end i (c ∷ s) ch =
    if ltb i end
    then elim (parse_line i c s ch) [
      | advance n ch' ↦ parse_lines fuel end (i + n) (drop n (c ∷ s)) ch'
      | fails r ↦ failed r
      | panics ↦ panicked
    ]
    else parsed ch

abbrev pub no_counts : Counts
no_counts = record {
  nvar = 0;
  nrule = 0;
  nrulevar = 0;
  nbuild = 0;
  nbuildvar = 0;
  npool = 0;
  npoolvar = 0;
  ndefault = 0;
  ninclude = 0;
  nsubninja = 0;
  ncomment = 0;
}

abbrev pub new_chunk : Chunk
new_chunk = record { statements = []; last = statement_none; counts = no_counts }

-- `parseChunk` of `buf[start:end]`, where `buf` is the whole file. Each round but a stuck one takes a byte.
unfoldable pub parse_chunk : Bytes → ℕ → ℕ → Parsed
parse_chunk buf start end = parse_lines (length buf + 1) end start (drop start buf) new_chunk
