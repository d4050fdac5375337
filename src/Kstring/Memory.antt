-- ===== src/Kstring/Memory.antt =====
-- The memory routines of kstring.c, on arrays as lists of cells.
use simple_kernel.Base.{
  ℕ, zero, suc, ◌+◌, ◌-◌, ◌<◌, ◌≤◌, ◌||◌, ◌≡◌, refl, ◌∙◌, ◌⊎◌, inl, inr, true, false, List, arith,
  ltb, ◌==◌, if◌then◌else◌, u8, in_run, length, length-set, get_or, set, get_or-set, Bool-cases,
}
use simple_kernel.Kstring.{
  copy_between, kmemcpy_between, copy_up, copy_down, fill_up, kmemcpy, kmemmove, kmemset,
}

-- The cell `j` after `n` cells are moved from `src` to `dst`.
abbrev pub moved : ℕ → ℕ → ℕ → List ℕ → ℕ → ℕ
moved dst src n mem j = if in_run dst n j then get_or mem (j - dst + src) 0 else get_or mem j 0

pub length-copy_up :
    (r i dst src : ℕ) (mem : List ℕ) → length (copy_up r i dst src mem) ≡ length mem
unfolding copy_up
length-copy_up zero i dst src mem = refl
length-copy_up (suc r) i dst src mem = ground (
  arith,
  length-copy_up r (i + 1) dst src (set mem (dst + i) (get_or mem (src + i) 0)),
  length-set mem (dst + i) (get_or mem (src + i) 0),
)

-- One cell `k` in front of or behind a run is moved first; `g` and `g'` read the cells before and
-- after that.
module _ (g g' : ℕ → ℕ) (dst src r j : ℕ) where
  abbrev After : ℕ → ℕ → ℕ → Type 0
  After k l x = g' x ≡ (if k == x then g l else g x)

  moved_front :
      After dst src j
      → After dst src (j - suc dst + suc src)
      → (dst < src) ⊎ (src + suc r ≤ dst)
      → (if in_run (suc dst) r j then g' (j - suc dst + suc src) else g' j)
        ≡ (if in_run dst (suc r) j then g (j - dst + src) else g j)
  moved_front a b apart = elim (Bool-cases (dst == j)) [
    | inl e ↦
        let same : j - dst + src ≡ src = ground arith in
        let out : in_run (suc dst) r j ≡ false = ground arith in
        let at : in_run dst (suc r) j ≡ true = ground arith in rw (out, at, same, a, e)
    | inr ne ↦ elim (Bool-cases (in_run (suc dst) r j)) [
      | inl here ↦
          let at : in_run dst (suc r) j ≡ true = ground arith in
          let off : (dst == (j - suc dst + suc src)) ≡ false = ground arith in
          let same : j - suc dst + suc src ≡ j - dst + src = ground arith in
          rw (here, at, b, off, same)
      | inr out ↦ let at : in_run dst (suc r) j ≡ false = ground arith in rw (out, at, a, ne)
    ]
  ]

  moved_back :
      After (dst + r) (src + r) j
      → After (dst + r) (src + r) (j - dst + src)
      → src < dst
      → (if in_run dst r j then g' (j - dst + src) else g' j)
        ≡ (if in_run dst (suc r) j then g (j - dst + src) else g j)
  moved_back a b apart = elim (Bool-cases (dst + r == j)) [
    | inl e ↦
        let same : j - dst + src ≡ src + r = ground arith in
        let out : in_run dst r j ≡ false = ground arith in
        let at : in_run dst (suc r) j ≡ true = ground arith in rw (out, at, same, a, e)
    | inr ne ↦ elim (Bool-cases (in_run dst r j)) [
      | inl here ↦
          let at : in_run dst (suc r) j ≡ true = ground arith in
          let off : (dst + r == (j - dst + src)) ≡ false = ground arith in rw (here, at, b, off)
      | inr out ↦ let at : in_run dst (suc r) j ≡ false = ground arith in rw (out, at, a, ne)
    ]
  ]

-- Copying upwards is right where the reads stay ahead of the writes, or out of their way.
copy_up-moved :
    (r i dst src : ℕ) (mem : List ℕ) (j : ℕ)
    → (dst < src) ⊎ (src + i + r ≤ dst + i)
    → dst + i + r ≤ length mem
    → get_or (copy_up r i dst src mem) j 0 ≡ moved (dst + i) (src + i) r mem j
unfolding copy_up
copy_up-moved zero i dst src mem j apart h = ground arith
copy_up-moved (suc r) i dst src mem j apart h =
    let w = get_or mem (src + i) 0 in
    let next : dst + (i + 1) ≡ suc (dst + i) = omega arith in
    let next' : src + (i + 1) ≡ suc (src + i) = omega arith in
    rw (next, next') at
      (copy_up-moved r (i + 1) dst src (set mem (dst + i) w) j (omega arith)
        (omega (arith, length-set mem (dst + i) w)))
    ∙ moved_front (λ x. get_or mem x 0) (λ x. get_or (set mem (dst + i) w) x 0) (dst + i) (src + i)
        r j (get_or-set mem (dst + i) j w 0 (omega arith))
        (get_or-set mem (dst + i) (j - suc (dst + i) + suc (src + i)) w 0 (omega arith))
        (omega arith)

copy_down-moved :
    (r dst src : ℕ) (mem : List ℕ) (j : ℕ)
    → src < dst
    → dst + r ≤ length mem
    → get_or (copy_down r dst src mem) j 0 ≡ moved dst src r mem j
unfolding copy_down
copy_down-moved zero dst src mem j apart h = ground arith
copy_down-moved (suc r) dst src mem j apart h =
    let w = get_or mem (src + r) 0 in
    copy_down-moved r dst src (set mem (dst + r) w) j apart
      (omega (arith, length-set mem (dst + r) w))
    ∙ moved_back (λ x. get_or mem x 0) (λ x. get_or (set mem (dst + r) w) x 0) dst src r j
        (get_or-set mem (dst + r) j w 0 (omega arith))
        (get_or-set mem (dst + r) (j - dst + src) w 0 (omega arith)) apart

-- With a destination inside the array, after `kmemmove` the destination holds what the source held
-- before, however the two overlap, and every other cell is as before.
pub kmemmove-moved :
    (dst src n : ℕ) (mem : List ℕ) (j : ℕ)
    → dst + n ≤ length mem
    → get_or (kmemmove dst src n mem) j 0 ≡ moved dst src n mem j
unfolding kmemmove
kmemmove-moved dst src n mem j h = elim (Bool-cases (dst == src || n == 0)) [
  | inl still ↦ elim (Bool-cases (in_run dst n j)) [
    | inl here ↦ let same : j - dst + src ≡ j = ground arith in rw (still, here, same)
    | inr out ↦ rw (still, out)
  ]
  | inr moves ↦ elim (Bool-cases (ltb dst src)) [
    | inl up ↦
        let d : dst + 0 ≡ dst = omega arith in
        let s : src + 0 ≡ src = omega arith in
        rw (moves, up)
          (unfold kmemcpy in
            rw (d, s) at (copy_up-moved n 0 dst src mem j (inl (ground arith)) (omega arith)))
    | inr down ↦ rw (moves, down) (copy_down-moved n dst src mem j (ground arith) h)
  ]
]

-- After `kmemcpy` between places that do not overlap the destination holds what the source held, and
-- every other cell is as before.
pub kmemcpy-moved :
    (dst src n : ℕ) (mem : List ℕ) (j : ℕ)
    → (dst < src) ⊎ (src + n ≤ dst)
    → dst + n ≤ length mem
    → get_or (kmemcpy dst src n mem) j 0 ≡ moved dst src n mem j
unfolding kmemcpy
kmemcpy-moved dst src n mem j apart h =
    let d : dst + 0 ≡ dst = omega arith in
    let s : src + 0 ≡ src = omega arith in
    rw (d, s) at (copy_up-moved n 0 dst src mem j (omega arith) (omega arith))

fill_up-get :
    (r i dst v : ℕ) (mem : List ℕ) (j : ℕ)
    → dst + i + r ≤ length mem
    → get_or (fill_up r i dst v mem) j 0 ≡ (if in_run (dst + i) r j then u8 v else get_or mem j 0)
unfolding fill_up
fill_up-get zero i dst v mem j h = ground arith
fill_up-get (suc r) i dst v mem j h = ground (
  arith,
  fill_up-get r (i + 1) dst v (set mem (dst + i) (u8 v)) j,
  length-set mem (dst + i) (u8 v),
  get_or-set mem (dst + i) j (u8 v) 0,
)

-- With a run inside the array, `kmemset` stores the low byte of `value` into the `n` cells from
-- `dst` on, and into no other.
pub kmemset-get :
    (dst value n : ℕ) (mem : List ℕ) (j : ℕ)
    → dst + n ≤ length mem
    → get_or (kmemset dst value n mem) j 0 ≡ (if in_run dst n j then u8 value else get_or mem j 0)
unfolding kmemset
kmemset-get dst value n mem j h =
    let e : dst + 0 ≡ dst = omega arith in rw e at (fill_up-get n 0 dst value mem j (omega arith))

length-fill_up : (r i dst v : ℕ) (mem : List ℕ) → length (fill_up r i dst v mem) ≡ length mem
unfolding fill_up
length-fill_up zero i dst v mem = refl
length-fill_up (suc r) i dst v mem =
    length-fill_up r (i + 1) dst v (set mem (dst + i) (u8 v)) ∙ length-set mem (dst + i) (u8 v)

pub length-kmemset :
    (dst value n : ℕ) (mem : List ℕ) → length (kmemset dst value n mem) ≡ length mem
unfolding kmemset
length-kmemset dst value n mem = length-fill_up n 0 dst value mem

pub length-copy_between :
    (r i dst src : ℕ) (a mem : List ℕ) → length (copy_between r i dst src a mem) ≡ length mem
unfolding copy_between
length-copy_between zero i dst src a mem = refl
length-copy_between (suc r) i dst src a mem =
    length-copy_between r (i + 1) dst src a (set mem (dst + i) (get_or a (src + i) 0))
    ∙ length-set mem (dst + i) (get_or a (src + i) 0)

copy_between-get :
    (r i dst src : ℕ) (a mem : List ℕ) (j : ℕ)
    → dst + i + r ≤ length mem
    → get_or (copy_between r i dst src a mem) j 0
      ≡ (if in_run (dst + i) r j then get_or a (j - dst + src) 0 else get_or mem j 0)
unfolding copy_between
copy_between-get zero i dst src a mem j h = ground arith
copy_between-get (suc r) i dst src a mem j h =
    let w = get_or a (src + i) 0 in
    let rest =
      copy_between-get r (i + 1) dst src a (set mem (dst + i) w) j
        (omega (arith, length-set mem (dst + i) w)) in
    elim (Bool-cases (dst + i == j)) [
      | inl e ↦
          let same : j - dst + src ≡ src + i = ground arith in
          let out : in_run (dst + (i + 1)) r j ≡ false = ground arith in
          let at : in_run (dst + i) (suc r) j ≡ true = ground arith in
          rest ∙ rw (out, at, same, get_or-set mem (dst + i) j w 0 (omega arith), e)
      | inr ne ↦
          let at : in_run (dst + (i + 1)) r j ≡ in_run (dst + i) (suc r) j = ground arith in
          rest ∙ rw (at, get_or-set mem (dst + i) j w 0 (omega arith), ne)
    ]

-- `kmemcpy` between two arrays puts the cells of the source there, and changes no other.
pub kmemcpy_between-get :
    (dst src n : ℕ) (a mem : List ℕ) (j : ℕ)
    → dst + n ≤ length mem
    → get_or (kmemcpy_between dst src n a mem) j 0
      ≡ (if in_run dst n j then get_or a (j - dst + src) 0 else get_or mem j 0)
unfolding kmemcpy_between
kmemcpy_between-get dst src n a mem j h =
    let e : dst + 0 ≡ dst = omega arith in
    rw e at (copy_between-get n 0 dst src a mem j (omega arith))

pub length-kmemcpy_between :
    (dst src n : ℕ) (a mem : List ℕ) → length (kmemcpy_between dst src n a mem) ≡ length mem
unfolding kmemcpy_between
length-kmemcpy_between dst src n a mem = length-copy_between n 0 dst src a mem

length-copy_down : (r dst src : ℕ) (mem : List ℕ) → length (copy_down r dst src mem) ≡ length mem
unfolding copy_down
length-copy_down zero dst src mem = refl
length-copy_down (suc r) dst src mem =
    length-copy_down r dst src (set mem (dst + r) (get_or mem (src + r) 0))
    ∙ length-set mem (dst + r) (get_or mem (src + r) 0)

pub length-kmemmove : (dst src n : ℕ) (mem : List ℕ) → length (kmemmove dst src n mem) ≡ length mem
unfolding kmemmove kmemcpy
length-kmemmove dst src n mem = elim (Bool-cases (dst == src || n == 0)) [
  | inl still ↦ rw still
  | inr moves ↦ elim (Bool-cases (ltb dst src)) [
    | inl up ↦ rw (moves, up) (length-copy_up n 0 dst src mem)
    | inr down ↦ rw (moves, down) (length-copy_down n dst src mem)
  ]
]
