-- ===== src/DepsLog/Codec.antt =====
-- The reader undoes the writer, one record at a time.
use siso.Common.{
  ℕ, zero, suc, ◌+◌, ◌-◌, ◌*◌, ◌/◌, ◌%◌, ◌≤◌, ◌<◌, ◌≡◌, ◌≢◌, refl, ap, ◌∙◌, false, [], ◌∷◌, ◌++◌,
  append_assoc, append-nil, some, Bytes, ltb, ◌==◌, if◌then◌else◌, length, get_elem?, take, drop,
  replicate, length-append, length-replicate, take-append, drop-append, get_elem?-append_left,
  get_elem?-append_right, arith,
}
use siso.Common.Words.{word, sign_bit, put_word, get_word, get_word-put_word, length-put_word}
use siso.DepsLog.Reader.{
  max_record_size, record_size, is_deps_record, read_deps_record, strip_padding, check_path,
  read_path_record, ReadState, use_deps, use_path, read_record, read_step,
}
use siso.DepsLog.Writer.{padding}

-- A path that the format can hold: not empty, not ending in a NUL byte, and not too long.
pub record IsStorable (p : Bytes) : Type 0 where
  pub front : Bytes
  pub last : ℕ
  pub ends : p ≡ front ++ last ∷ []
  pub not_nul : last ≢ 0
  pub fits : length p + padding (length p) + 4 ≤ max_record_size

get_elem?-replicate :
    (m t : ℕ) (rest : Bytes) → t < m → get_elem? (replicate m 0 ++ rest) t ≡ some 0
get_elem?-replicate zero t rest h = elim h [ ]
get_elem?-replicate (suc m) zero rest h = refl
get_elem?-replicate (suc m) (suc t) rest h = get_elem?-replicate m t rest (omega arith)

strip_step :
    (k q c : ℕ) (buf : Bytes)
    → get_elem? buf q ≡ some c
    → strip_padding (suc k) (suc q) buf ≡ strip_padding k (if c == 0 then q else suc q) buf
unfolding strip_padding
strip_step k q c buf e = rw (strip_padding, e)

-- `m` rounds of the loop drop `m` bytes of padding.
strip_zeros :
    (m j p q : ℕ) (buf : Bytes)
    → q ≡ p + m
    → ((t : ℕ) → t < m → get_elem? buf (p + t) ≡ some 0)
    → strip_padding (m + j) q buf ≡ strip_padding j p buf
strip_zeros zero j p q buf e zeros =
    let e' : q ≡ p = omega arith in let f : zero + j ≡ j = omega arith in rw (e', f)
strip_zeros (suc m) j p zero buf e zeros = absurd (omega arith)
strip_zeros (suc m) j p (suc q) buf e zeros =
    let f : suc m + j ≡ suc (m + j) = omega arith in
    let g : p + m ≡ q = omega arith in
    let z : get_elem? buf q ≡ some 0 = rw g at (zeros m (omega arith)) in
    rw (f, strip_step (m + j) q 0 buf z)
      (strip_zeros m j p q buf (omega arith) (λ t lt. zeros t (omega arith)))

strip_stops :
    (j p c : ℕ) (buf : Bytes)
    → get_elem? buf p ≡ some c
    → c ≢ 0
    → strip_padding j (suc p) buf ≡ some (suc p)
strip_stops zero p c buf e h = unfold strip_padding in refl
strip_stops (suc j) p c buf e h =
    rw (strip_step j p c buf e) (ground (arith, strip_stops j p c buf e h))

-- A path with `m` bytes of padding is found again, if `m` is at most the loop's three rounds.
strip-path :
    (front : Bytes) (last m : ℕ) (tail : Bytes)
    → last ≢ 0
    → m ≤ 3
    → strip_padding 3 (suc (length front) + m) ((front ++ last ∷ []) ++ (replicate m 0 ++ tail))
      ≡ some (suc (length front))
strip-path front last m tail h le =
    let buf = (front ++ last ∷ []) ++ (replicate m 0 ++ tail) in
    let len : length (front ++ last ∷ []) ≡ length front + 1 = length-append front (last ∷ []) in
    let three : m + (3 - m) ≡ 3 = omega arith in
    let at_last : get_elem? buf (length front) ≡ some last =
      get_elem?-append_left (front ++ last ∷ []) _ (length front) (omega (arith, len))
      ∙ get_elem?-append_right front (last ∷ []) (length front) 0 (omega arith) in
    let zeros : (t : ℕ) → t < m → get_elem? buf (suc (length front) + t) ≡ some 0 = λ t lt.
      get_elem?-append_right (front ++ last ∷ []) (replicate m 0 ++ tail) _ t (omega (arith, len))
      ∙ get_elem?-replicate m t tail lt in
    (rw three at
      (strip_zeros m (3 - m) (suc (length front)) (suc (length front) + m) buf refl zeros))
    ∙ strip_stops (3 - m) (length front) last buf at_last h

pub read_step-header :
    (h : ℕ) (xs : Bytes) (st : ReadState)
    → h < word
    → read_step (put_word h ++ xs) st ≡ read_record h xs st
unfolding read_step put_word get_word
read_step-header h xs st lt =
    let e : h % 256
          + 256 * (h / 256 % 256)
          + 65536 * (h / 65536 % 256)
          + 16777216 * (h / 16777216 % 256)
        ≡ h =
      omega arith in
    rw e

-- One round on a record with header `h`, `body` and what follows it.
pub read_step-framed :
    (h : ℕ) (body more : Bytes) (st : ReadState)
    → h < word
    → record_size h ≡ length body
    → 0 < length body
    → length body ≤ max_record_size
    → read_step ((put_word h ++ body) ++ more) st ≡ (
        if is_deps_record h
        then use_deps more st (read_deps_record body st.log.paths)
        else use_path more st (read_path_record body (length st.log.paths)))
read_step-framed h body more st lt size pos fits =
    let len = length-append body more in
    let rounds : ltb max_record_size (length body) ≡ false = ground arith in
    let there : (length (body ++ more) == 0) ≡ false = ground (arith, len) in
    let enough : ltb (length (body ++ more)) (length body) ≡ false = ground (arith, len) in
    rw (append_assoc (put_word h) body more) (
      read_step-header h (body ++ more) st lt
      ∙ unfold read_record in
        rw (size, take-append body more _ refl, drop-append body more _ refl, rounds, there, enough)
          refl)

abbrev pub path_body : ℕ → Bytes → Bytes
path_body i p = p ++ (replicate (padding (length p)) 0 ++ put_word (word - 1 - i % word))

pub length-path_body :
    (i : ℕ) (p : Bytes) → length (path_body i p) ≡ length p + padding (length p) + 4
length-path_body i p =
    let m = padding (length p) in
    let w = put_word (word - 1 - i % word) in
    omega (
      arith,
      length-append p (replicate m 0 ++ w),
      length-append (replicate m 0) w,
      length-replicate {A = ℕ} m 0,
      length-put_word (word - 1 - i % word),
    )

-- The checksum is accepted at the index it was written for.
check_path-same :
    (i : ℕ) (p rest : Bytes)
    → i < sign_bit
    → check_path i p (get_word (put_word (word - 1 - i % word) ++ rest)) ≡ some p
unfolding check_path
check_path-same i p rest lt =
    rw (get_word-put_word (word - 1 - i % word) rest (omega arith)) (ground arith)

read_path_parts :
    (buf tail : Bytes) (n q p : ℕ)
    → length buf - 4 ≡ q
    → strip_padding 3 q buf ≡ some p
    → drop q buf ≡ tail
    → read_path_record buf n ≡ check_path n (take p buf) (get_word tail)
unfolding read_path_record
read_path_parts buf tail n q p len strip tail_eq =
    rw (len, read_path_record, strip) (rw (len, tail_eq))

-- A path, its padding and an accepted checksum.
read_padded :
    (p ck : Bytes) (m n : ℕ)
    → IsStorable p
    → m ≤ 3
    → length ck ≡ 4
    → check_path n p (get_word ck) ≡ some p
    → read_path_record (p ++ (replicate m 0 ++ ck)) n ≡ some p
read_padded p ck m n s le four checked =
    let buf = p ++ (replicate m 0 ++ ck) in
    let lp : length p ≡ suc (length s.front) =
      ap length s.ends ∙ omega (arith, length-append s.front (s.last ∷ [])) in
    let lz = length-replicate {A = ℕ} m 0 in
    let len : length buf - 4 ≡ length p + m =
      omega (
        arith,
        length-append p (replicate m 0 ++ ck),
        length-append (replicate m 0) ck,
        lz,
        four,
      ) in
    let strip : strip_padding 3 (length p + m) buf ≡ some (length p) =
      rw (lp, s.ends) (strip-path s.front s.last m ck s.not_nul le) in
    let tail : drop (length p + m) buf ≡ ck = rw (← append_assoc p (replicate m 0) ck) (
      drop-append (p ++ replicate m 0) ck (length p + m)
        (omega (arith, length-append p (replicate m 0), lz))) in
    read_path_parts buf ck n (length p + m) (length p) len strip tail
    ∙ rw (take-append p (replicate m 0 ++ ck) (length p) refl) checked

pub read_path_record-path_body :
    (i : ℕ) (p : Bytes) → IsStorable p → i < sign_bit → read_path_record (path_body i p) i ≡ some p
read_path_record-path_body i p s lt =
    read_padded p (put_word (word - 1 - i % word)) (padding (length p)) i s (omega arith)
      (length-put_word _) (rw append-nil at (check_path-same i p [] lt))
