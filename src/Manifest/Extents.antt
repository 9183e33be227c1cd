-- ===== src/Manifest/Extents.antt =====
-- The statements that `parseChunk` of toolsupport/ninjautil/chunk_parser.go finds: where they stand, and
-- whether the counts provide for them.
use siso.Common.{ℕ, ◌+◌, ◌≤◌, ◌<◌, ◌≡◌, List, [], ◌∷◌, ◌++◌, ◌==◌, if◌then◌else◌, arith}
use siso.Manifest.Chunk.{
  StatementType, statement_none, var_decl, pool, pool_var, rule, rule_var, build, build_var,
  default_targets, include, subninja, Statement, Counts, count_kind,
}

-- The statements stand one behind the other between these positions.
unfoldable pub Spans : ℕ → List Statement → ℕ → Type 0
Spans lo [] hi = lo ≤ hi
Spans lo (st ∷ sts) hi = (lo ≤ st.s) × (st.s < st.e) × Spans (st.e) sts hi

pub Spans-le :
    (lo hi hi' : ℕ) (sts : List Statement) → hi ≤ hi' → Spans lo sts hi → Spans lo sts hi'
unfolding Spans
Spans-le lo hi hi' [] l h = omega arith
Spans-le lo hi hi' (st ∷ sts) l h = (h.0, h.1, Spans-le (st.e) hi hi' sts l h.2)

pub Spans-snoc :
    (lo hi : ℕ) (sts : List Statement) (st : Statement)
    → st.s ≡ hi
    → st.s < st.e
    → Spans lo sts hi
    → Spans lo (sts ++ (st ∷ [])) (st.e)
unfolding Spans
Spans-snoc lo hi [] st e l h = (omega arith, l, omega arith)
Spans-snoc lo hi (x ∷ sts) st e l h = (h.0, h.1, Spans-snoc (x.e) hi sts st e l h.2)

-- The memory that `alloc` provides for the statements of a kind.
unfoldable pub provided : StatementType → Counts → ℕ
provided statement_none k = 0
provided var_decl k = k.nvar
provided pool k = k.npool
provided pool_var k = k.npoolvar
provided rule k = k.nrule
provided rule_var k = k.nrulevar
provided build k = k.nbuild
provided build_var k = k.nbuildvar
provided default_targets k = k.ndefault
provided include k = k.ninclude
provided subninja k = k.nsubninja

-- The number of a kind.
abbrev pub rank : StatementType → ℕ
rank statement_none = 0
rank var_decl = 1
rank pool = 2
rank pool_var = 3
rank rule = 4
rank rule_var = 5
rank build = 6
rank build_var = 7
rank default_targets = 8
rank include = 9
rank subninja = 10

-- How many of the statements are of the kind.
unfoldable pub tally : StatementType → List Statement → ℕ
tally k [] = 0
tally k (st ∷ sts) = (if rank (st.kind) == rank k then 1 else 0) + tally k sts

tally-snoc :
    (k : StatementType) (sts : List Statement) (st : Statement)
    → tally k (sts ++ (st ∷ [])) ≡ tally k sts + (if rank (st.kind) == rank k then 1 else 0)
unfolding tally
tally-snoc k [] st = omega arith
tally-snoc k (x ∷ sts) st = omega (arith, tally-snoc k sts st)

provided-count_kind :
    (k kind : StatementType) (c : Counts)
    → 0 < rank k
    → provided k c + (if rank kind == rank k then 1 else 0) ≤ provided k (count_kind kind c)
unfolding provided count_kind
provided-count_kind k statement_none c h = grind arith
provided-count_kind k var_decl c h = grind arith
provided-count_kind k pool c h = grind arith
provided-count_kind k pool_var c h = grind arith
provided-count_kind k rule c h = grind arith
provided-count_kind k rule_var c h = grind arith
provided-count_kind k build c h = grind arith
provided-count_kind k build_var c h = grind arith
provided-count_kind k default_targets c h = grind arith
provided-count_kind k include c h = grind arith
provided-count_kind k subninja c h = grind arith

provided-nvar :
    (k : StatementType) (c : Counts) → provided k c ≤ provided k (record c { nvar = c.nvar + 1 })
unfolding provided
provided-nvar k c = grind arith

unfoldable pub Covered : List Statement → Counts → Type 0
Covered sts c = (k : StatementType) → 0 < rank k → tally k sts ≤ provided k c

pub Covered-count :
    (kind : StatementType) (sts : List Statement) (c : Counts)
    → Covered sts c
    → Covered sts (count_kind kind c)
unfolding Covered
Covered-count kind sts c h =
    λ k l. let g = h k l in let p = provided-count_kind k kind c l in omega arith

pub Covered-snoc :
    (sts : List Statement) (st : Statement) (c : Counts)
    → Covered sts c
    → Covered (sts ++ (st ∷ [])) (count_kind (st.kind) c)
unfolding Covered
Covered-snoc sts st c h = λ k l.
    let g = h k l in
    let p = provided-count_kind k (st.kind) c l in let q = tally-snoc k sts st in omega arith

pub Covered-nvar :
    (sts : List Statement) (c : Counts)
    → Covered sts c
    → Covered sts (record c { nvar = c.nvar + 1 })
unfolding Covered
Covered-nvar sts c h = λ k l. let g = h k l in let p = provided-nvar k c in omega arith

pub Covered-ncomment :
    (sts : List Statement) (c : Counts)
    → Covered sts c
    → Covered sts (record c { ncomment = c.ncomment + 1 })
unfolding Covered provided
Covered-ncomment sts c h = λ k l.
    let g = h k l in
    let e : provided k c ≡ provided k (record c { ncomment = c.ncomment + 1 }) = grind arith in
    omega arith
