-- ===== src/Manifest/Latest.antt =====
-- What a lookup of a variable finds (toolsupport/ninjautil/binding.go).
use siso.Common.{
  ℕ, ◌≤◌, ◌<◌, ◌≡◌, ◌⊎◌, inl, inr, refl, true, false, List, [], ◌∷◌, Option, none, some, Bytes,
  bytes_eq, bytes_eq_iff, Bool-cases, arith,
}
use siso.Manifest.Bindings.{EvalString, Binding, is_late, is_older, lookup_list}

-- The position is before the bound, which there may not be.
abbrev pub IsBefore : Option ℕ → ℕ → Type 0
IsBefore none p = Unit
IsBefore (some bound) p = p < bound

-- The value is bound to the name before the position.
abbrev pub IsBound : Option ℕ → Bytes → Binding → Type 0
IsBound pos key b = IsBefore pos (b.value.pos) × (key ≡ b.name)

late-IsBefore : (pos : Option ℕ) (x : EvalString) → is_late pos x ≡ true → IsBefore pos (x.pos) → ⊥
late-IsBefore none x e h = cc
late-IsBefore (some bound) x e h = ground arith

early-IsBefore : (pos : Option ℕ) (x : EvalString) → is_late pos x ≡ false → IsBefore pos (x.pos)
early-IsBefore none x e = tt
early-IsBefore (some bound) x e = ground arith

unequal : (s t : Bytes) → bytes_eq s t ≡ false → s ≡ t → ⊥
unequal s t e q = let r = (bytes_eq_iff s t).1 q in cc

unfoldable pub Among : Option ℕ → Bytes → EvalString → List Binding → Type 0
Among pos key x [] = ⊥
Among pos key x (b ∷ bs) = (IsBound pos key b × (x ≡ b.value)) ⊎ Among pos key x bs

-- No value that is bound to the name before the position stands behind `p`.
unfoldable pub NoneAfter : Option ℕ → Bytes → ℕ → List Binding → Type 0
NoneAfter pos key p [] = Unit
NoneAfter pos key p (b ∷ bs) = (IsBound pos key b → b.value.pos ≤ p) × NoneAfter pos key p bs

-- No value is bound to the name before the position.
unfoldable pub Unbound : Option ℕ → Bytes → List Binding → Type 0
Unbound pos key [] = Unit
Unbound pos key (b ∷ bs) = (IsBound pos key b → ⊥) × Unbound pos key bs

-- The result of a lookup is the value that stands last.
unfoldable pub IsLatest : Option ℕ → Bytes → List Binding → Option EvalString → Type 0
IsLatest pos key bs none = Unbound pos key bs
IsLatest pos key bs (some x) = Among pos key x bs × NoneAfter pos key (x.pos) bs

NoneAfter-weaken :
    (pos : Option ℕ) (key : Bytes) (p q : ℕ) (bs : List Binding)
    → p ≤ q
    → NoneAfter pos key p bs
    → NoneAfter pos key q bs
unfolding NoneAfter
NoneAfter-weaken pos key p q [] l h = tt
NoneAfter-weaken pos key p q (b ∷ bs) l h =
    (λ k. let r = h.0 k in omega arith, NoneAfter-weaken pos key p q bs l h.1)

Unbound-NoneAfter :
    (pos : Option ℕ) (key : Bytes) (p : ℕ) (bs : List Binding)
    → Unbound pos key bs
    → NoneAfter pos key p bs
unfolding NoneAfter Unbound
Unbound-NoneAfter pos key p [] h = tt
Unbound-NoneAfter pos key p (b ∷ bs) h = (λ k. absurd (h.0 k), Unbound-NoneAfter pos key p bs h.1)

-- One binding more, which is skipped.
IsLatest-skip :
    (pos : Option ℕ) (key : Bytes) (b : Binding) (bs : List Binding) (o : Option EvalString)
    → (IsBound pos key b → (x : EvalString) × (o ≡ some x) × (b.value.pos ≤ x.pos))
    → IsLatest pos key bs o
    → IsLatest pos key (b ∷ bs) o
unfolding IsLatest Unbound Among NoneAfter
IsLatest-skip pos key b bs none f h = (λ k. let (x, e, l) = f k in cc, h)
IsLatest-skip pos key b bs (some x) f h =
    (inr h.0, (λ k. let (y, e, l) = f k in let q : x.pos ≡ y.pos = cc in omega arith, h.1))

-- One binding more, which is taken.
IsLatest-take :
    (pos : Option ℕ) (key : Bytes) (b : Binding) (bs : List Binding) (o : Option EvalString)
    → IsBound pos key b
    → is_older o (b.value) ≡ false
    → IsLatest pos key bs o
    → IsLatest pos key (b ∷ bs) (some (b.value))
unfolding IsLatest Among NoneAfter
IsLatest-take pos key b bs none k e h =
    (inl (k, refl), (λ q. omega arith, Unbound-NoneAfter pos key _ bs h))
IsLatest-take pos key b bs (some x) k e h = (
  inl (k, refl),
  (λ q. omega arith, NoneAfter-weaken pos key (x.pos) (b.value.pos) bs (ground arith) h.1),
)

older-some :
    (o : Option EvalString) (x : EvalString)
    → is_older o x ≡ true
    → (y : EvalString) × (o ≡ some y) × (x.pos ≤ y.pos)
older-some none x h = cc
older-some (some y) x h = (y, refl, ground arith)

unbound_nil : (pos : Option ℕ) (key : Bytes) → IsLatest pos key [] none
unfolding IsLatest Unbound
unbound_nil pos key = tt

-- A lookup in a list finds the value that stands last, of those whose name is the one that is looked up and
-- whose position is smaller than the given one (any, where none is given), and finds nothing where there is
-- none.
pub lookup_list-IsLatest :
    (pos : Option ℕ) (key : Bytes) (bs : List Binding)
    → IsLatest pos key bs (lookup_list pos key bs)
unfolding lookup_list
lookup_list-IsLatest pos key [] = unbound_nil pos key
lookup_list-IsLatest pos key (b ∷ bs) =
    let ih = lookup_list-IsLatest pos key bs in
    let ret = lookup_list pos key bs in
    elim (Bool-cases (is_late pos (b.value))) [
      | inl e ↦
          rw e (IsLatest-skip pos key b bs ret (λ k. absurd (late-IsBefore pos (b.value) e k.0)) ih)
      | inr e ↦ rw e (elim (Bool-cases (is_older ret (b.value))) [
        | inl f ↦ rw f (IsLatest-skip pos key b bs ret (λ k. older-some ret (b.value) f) ih)
        | inr f ↦ rw f (elim (Bool-cases (bytes_eq key (b.name))) [
          | inl g ↦ rw g (
              IsLatest-take pos key b bs ret
                (early-IsBefore pos (b.value) e, (bytes_eq_iff key (b.name)).0 g) f ih)
          | inr g ↦
              rw g (IsLatest-skip pos key b bs ret (λ k. absurd (unequal key (b.name) g k.1)) ih)
        ])
      ])
    ]
