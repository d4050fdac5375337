-- ===== src/Heap/Joined.antt =====
-- The blocks of heap.c as a list of addresses, sizes and flags, and what joining neighbours means
-- for such a list.
use simple_kernel.Base.{
  ℕ, ◌+◌, ◌*◌, ◌/◌, ◌%◌, ◌^◌, ◌≡◌, ◌≢◌, ◌⊎◌, refl, sym, ap, ◌∙◌, arith, Bool, true, false, ◌&&◌,
  not, Bool-cases, both_true, inl, inr, List, [], ◌∷◌, ◌==◌, if◌then◌else◌,
}
use simple_kernel.Heap.{Heap}

pub record Block : Type 0 where
  pub address : ℕ
  pub size : ℕ
  pub free : Bool

abbrev pub block_at : Heap → ℕ → Block
block_at h p = record { address = p; size = (h.header p).size; free = (h.header p).free }

unfoldable pub view : Heap → List ℕ → List Block
view h [] = []
view h (p ∷ ps) = block_at h p ∷ view h ps

-- Both blocks are free, and the second starts where the first ends, its 24 bytes of header and its
-- size rounded up to 16 behind its address.
unfoldable pub is_joinable : Block → Block → Bool
is_joinable b c =
    b.free && (c.free && (b.address + 24 + (b.size + 15) / 16 * 16) % 2 ^ 64 == c.address)

-- The second block with its header becomes payload of the first.
abbrev pub join : Block → Block → Block
join b c = record { address = b.address; size = (b.size + 24 + c.size) % 2 ^ 64; free = b.free }

-- A block takes up the blocks behind it as long as it can be joined with the next one; then it is
-- the next one's turn.
unfoldable pub absorb : Block → List Block → List Block
absorb b [] = b ∷ []
absorb b (c ∷ bs) =
    let longer = absorb (join b c) bs in
    let rest = absorb c bs in if is_joinable b c then longer else b ∷ rest

unfoldable pub joined : List Block → List Block
joined [] = []
joined (b ∷ bs) = absorb b bs

-- No block can be joined with the next one.
unfoldable pub is_apart : List Block → Bool
is_apart [] = true
is_apart (b ∷ []) = true
is_apart (b ∷ c ∷ bs) = not (is_joinable b c) && is_apart (c ∷ bs)

unfoldable pub Has : Block → List Block → Type 0
Has b [] = ⊥
Has b (c ∷ bs) = (b ≡ c) ⊎ Has b bs

-- The flag at an address is set to free.
unfoldable pub freed : ℕ → List Block → List Block
freed p [] = []
freed p (b ∷ bs) = (if b.address == p then record b { free = true } else b) ∷ freed p bs

-- Behind a block that is not joined with `c`, nothing that `c` becomes is joined either.
is_apart-absorb :
    (b c : Block) (bs : List Block)
    → is_joinable b c ≡ false
    → is_apart (absorb c bs) ≡ true
    → is_apart (b ∷ absorb c bs) ≡ true
unfolding absorb is_apart is_joinable
is_apart-absorb b c [] split a = rw split refl
is_apart-absorb b c (d ∷ bs) split a = elim (Bool-cases (is_joinable c d)) [
  | inl joins ↦ rw joins (is_apart-absorb b (join c d) bs split (rw joins at a))
  | inr keeps ↦ rw (keeps, split) (rw keeps at a)
]

absorb-is_apart : (b : Block) (bs : List Block) → is_apart (absorb b bs) ≡ true
unfolding absorb is_apart
absorb-is_apart b [] = refl
absorb-is_apart b (c ∷ bs) = elim (Bool-cases (is_joinable b c)) [
  | inl joins ↦ rw joins (absorb-is_apart (join b c) bs)
  | inr split ↦ rw split (is_apart-absorb b c bs split (absorb-is_apart c bs))
]

pub joined-is_apart : (bs : List Block) → is_apart (joined bs) ≡ true
unfolding joined is_apart
joined-is_apart [] = refl
joined-is_apart (b ∷ bs) = absorb-is_apart b bs

is_joinable-free : (b c : Block) → is_joinable b c ≡ true → (b.free ≡ true) × (c.free ≡ true)
unfolding is_joinable
is_joinable-free b c joins =
    let first = both_true b.free _ joins in (first.0, (both_true c.free _ first.1).0)

used_ne : (x b : Block) → x.free ≡ false → b.free ≡ true → x ≢ b
used_ne x b used free e =
    let same : x.free ≡ b.free = ap (λ (c : Block). c.free) e in cc (same, used, free)

-- A block in use stays as it is.
absorb-Has : (x b : Block) (bs : List Block) → x.free ≡ false → Has x (b ∷ bs) → Has x (absorb b bs)
unfolding absorb Has
absorb-Has x b [] used has = has
absorb-Has x b (c ∷ bs) used (inl e) = elim (Bool-cases (is_joinable b c)) [
  | inl joins ↦ absurd (used_ne x b used (is_joinable-free b c joins).0 e)
  | inr split ↦ rw split (inl e)
]
absorb-Has x b (c ∷ bs) used (inr (inl e)) = elim (Bool-cases (is_joinable b c)) [
  | inl joins ↦ absurd (used_ne x c used (is_joinable-free b c joins).1 e)
  | inr split ↦ rw split (inr (absorb-Has x c bs used (inl e)))
]
absorb-Has x b (c ∷ bs) used (inr (inr has)) = elim (Bool-cases (is_joinable b c)) [
  | inl joins ↦ rw joins (absorb-Has x (join b c) bs used (inr has))
  | inr split ↦ rw split (inr (absorb-Has x c bs used (inr has)))
]

pub joined-Has : (x : Block) (bs : List Block) → x.free ≡ false → Has x bs → Has x (joined bs)
unfolding joined Has
joined-Has x [] used has = absurd has
joined-Has x (b ∷ bs) used has = absorb-Has x b bs used has

-- A block of that address and flag.
abbrev pub HasFlag : Block → List Block → Type 0
HasFlag x bs = (y : Block) × Has y bs × (y.address ≡ x.address) × (y.free ≡ x.free)

-- Joining gives no address another flag.
absorb-HasFlag : (x b : Block) (bs : List Block) → Has x (absorb b bs) → HasFlag x (b ∷ bs)
unfolding absorb Has
absorb-HasFlag x b [] has = (x, has, refl, refl)
absorb-HasFlag x b (c ∷ bs) has = elim (Bool-cases (is_joinable b c)) [
  | inl joins ↦
      let (y, there, address, flag) = absorb-HasFlag x (join b c) bs (rw joins at has) in
      elim there [
        | inl e ↦ (
          b,
          inl refl,
          ap (λ (z : Block). z.address) (sym e) ∙ address,
          ap (λ (z : Block). z.free) (sym e) ∙ flag,
        )
        | inr later ↦ (y, inr (inr later), address, flag)
      ]
  | inr split ↦
      let cases : (x ≡ b) ⊎ Has x (absorb c bs) = rw split at has in
      elim cases [
        | inl e ↦ (x, inl e, refl, refl)
        | inr later ↦
            let (y, h, address, flag) = absorb-HasFlag x c bs later in (y, inr h, address, flag)
      ]
]

pub joined-HasFlag : (x : Block) (bs : List Block) → Has x (joined bs) → HasFlag x bs
unfolding joined Has
joined-HasFlag x [] has = absurd has
joined-HasFlag x (b ∷ bs) has = absorb-HasFlag x b bs has

-- At the address that is set free, there is no block in use.
pub freed-free :
    (p : ℕ) (x : Block) (bs : List Block) → Has x (freed p bs) → x.address ≡ p → x.free ≡ true
unfolding freed Has
freed-free p x [] has at = absurd has
freed-free p x (b ∷ bs) (inl e) at = elim (Bool-cases (b.address == p)) [
  | inl here ↦
      let set : x ≡ record b { free = true } = rw here at e in ap (λ (z : Block). z.free) set
  | inr other ↦
      let kept : x ≡ b = rw other at e in
      let same : b.address ≡ p = ap (λ (z : Block). z.address) (sym kept) ∙ at in
      absurd (ground arith)
]
freed-free p x (b ∷ bs) (inr has) at = freed-free p x bs has at

-- A block at another address is not touched.
pub freed-Has :
    (p : ℕ) (x : Block) (bs : List Block) → Has x bs → x.address ≢ p → Has x (freed p bs)
unfolding freed Has
freed-Has p x [] has other = has
freed-Has p x (b ∷ bs) (inl e) other =
    let apart : b.address ≢ p = λ q. other (ap (λ (z : Block). z.address) e ∙ q) in
    let test : (b.address == p) ≡ false = ground (arith, apart) in rw test (inl e)
freed-Has p x (b ∷ bs) (inr has) other = inr (freed-Has p x bs has other)
