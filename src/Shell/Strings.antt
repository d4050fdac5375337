-- ===== src/Shell/Strings.antt =====
-- Strings in a buffer of shell.c that is cut by NULs.
use simple_kernel.Base.{
  ℕ, zero, suc, ◌+◌, ◌-◌, ◌<◌, ◌≤◌, ◌≡◌, ◌≢◌, refl, sym, ap, ◌∙◌, arith, true, false, ◌&&◌, not,
  List, [], ◌∷◌, ◌==◌, Bool-cases, inl, inr, length, get_or, take, drop, set,
}
use simple_kernel.Kstring.Compare.{text}
use simple_kernel.Shell.{end_word}
use simple_kernel.Shell.Words.{word_size, behind, drop-drop}

abbrev pub string_at : List ℕ → ℕ → List ℕ
string_at b a = text (drop a b)

-- A string ends in front of a NUL.
text-end : (s : List ℕ) → get_or s (length (text s)) 0 ≡ 0
unfolding text
text-end [] = refl
text-end (c ∷ s) = ground (arith, text-end s)

-- A write behind the end of a string does not change it.
text-set : (s : List ℕ) (k v : ℕ) → length (text s) < k → text (set s k v) ≡ text s
unfolding text
text-set [] k v h = refl
text-set (c ∷ s) zero v h = absurd (omega arith)
text-set (c ∷ s) (suc k) v h = elim (Bool-cases (c == 0)) [
  | inl end ↦ rw end refl
  | inr more ↦ rw more (ap (λ t. c ∷ t) (text-set s k v (ground arith)))
]

drop-set : (b : List ℕ) (a k v : ℕ) → drop a (set b (a + k) v) ≡ set (drop a b) k v
drop-set b zero k v = let e : 0 + k ≡ k = omega arith in rw e refl
drop-set [] (suc a) k v = refl
drop-set (c ∷ b) (suc a) k v =
    let e : suc a + k ≡ suc (a + k) = omega arith in rw e (drop-set b a k v)

get_or-add : (b : List ℕ) (a k : ℕ) → get_or b (a + k) 0 ≡ get_or (drop a b) k 0
get_or-add b zero k = let e : 0 + k ≡ k = omega arith in rw e refl
get_or-add [] (suc a) k = refl
get_or-add (c ∷ b) (suc a) k =
    let e : suc a + k ≡ suc (a + k) = omega arith in rw e (get_or-add b a k)

drop-set_behind : (b : List ℕ) (x k v : ℕ) → x < k → drop k (set b x v) ≡ drop k b
drop-set_behind [] x k v h = refl
drop-set_behind (c ∷ b) x zero v h = absurd (omega arith)
drop-set_behind (c ∷ b) zero (suc k) v h = refl
drop-set_behind (c ∷ b) (suc x) (suc k) v h = drop-set_behind b x k v (omega arith)

-- Strings that end at `i` or in front of it are the same in both buffers.
unfoldable pub Keeps : ℕ → List ℕ → List ℕ → Type 0
Keeps i b b' = (a : ℕ) → a + length (string_at b a) ≤ i → string_at b' a ≡ string_at b a

Keeps-set : (b : List ℕ) (i x : ℕ) → i ≤ x → get_or b x 0 ≢ 0 → Keeps i b (set b x 0)
unfolding Keeps
Keeps-set b i x le some_char a ends =
    let size = length (string_at b a) in
    let at_end : get_or b (a + size) 0 ≡ 0 = get_or-add b a size ∙ text-end (drop a b) in
    let e : x ≡ a + (x - a) = omega arith in
    let apart : x ≢ a + size = λ q. some_char (ap (λ n. get_or b n 0) q ∙ at_end) in
    let past : size < x - a = omega arith in
    rw e (rw (drop-set b a (x - a) 0) (text-set (drop a b) (x - a) 0 past))

pub Keeps-trans : (i j : ℕ) (b c d : List ℕ) → i ≤ j → Keeps i b c → Keeps j c d → Keeps i b d
unfolding Keeps
Keeps-trans i j b c d le f g a ends =
    let same = f a ends in
    let still : a + length (string_at c a) ≤ j = rw same (omega arith) in g a still ∙ same

-- The word in front of `s`, and its end.
pub length-word : (s : List ℕ) → length (take (word_size s) s) ≡ word_size s
unfolding word_size
length-word [] = refl
length-word (c ∷ s) = elim (Bool-cases (not (c == 0) && not (c == 32))) [
  | inl inside ↦ rw inside (ap suc (length-word s))
  | inr out ↦ rw out refl
]

text-cut : (s : List ℕ) → text (set s (word_size s) 0) ≡ take (word_size s) s
unfolding word_size text
text-cut [] = refl
text-cut (c ∷ s) = elim (Bool-cases (not (c == 0) && not (c == 32))) [
  | inl inside ↦
      let some_char : (c == 0) ≡ false = ground arith in
      rw (inside, some_char) (ap (λ t. c ∷ t) (text-cut s))
  | inr out ↦ rw out refl
]

text-ended : (s : List ℕ) → get_or s (word_size s) 0 ≡ 0 → text s ≡ take (word_size s) s
unfolding word_size text
text-ended [] h = refl
text-ended (c ∷ s) h = elim (Bool-cases (not (c == 0) && not (c == 32))) [
  | inl inside ↦
      let some_char : (c == 0) ≡ false = ground arith in
      let here : get_or s (word_size s) 0 ≡ 0 = rw inside at h in
      rw (inside, some_char) (ap (λ t. c ∷ t) (text-ended s here))
  | inr out ↦ let first : c ≡ 0 = rw out at h in rw (out, first) refl
]

-- What `end_word` does behind the word at `start`.
pub record Ended (b : List ℕ) (start : ℕ) (r : List ℕ × ℕ) : Type 0 where
  pub word : string_at r.0 start ≡ take (word_size (drop start b)) (drop start b)
  pub rest : string_at r.0 r.1 ≡ text (behind (drop start b))
  pub keeps : Keeps start b r.0
  pub further : start + word_size (drop start b) ≤ r.1

pub behind-end : (s : List ℕ) → get_or s (word_size s) 0 ≡ 0 → behind s ≡ drop (word_size s) s
unfolding behind
behind-end s h = let end : (get_or s (word_size s) 0 == 0) ≡ true = ground arith in rw end refl

behind-more : (s : List ℕ) → get_or s (word_size s) 0 ≢ 0 → behind s ≡ drop (word_size s + 1) s
unfolding behind
behind-more s h = let more : (get_or s (word_size s) 0 == 0) ≡ false = ground arith in rw more refl

pub end_word-Ended :
    (b : List ℕ) (start : ℕ) → Ended b start (end_word b (start + word_size (drop start b)))
unfolding end_word
end_word-Ended b start =
    let s = drop start b in
    let n = word_size s in
    let same = get_or-add b start n in
    elim (Bool-cases (get_or b (start + n) 0 == 0)) [
      | inl end ↦
          let z : get_or s n 0 ≡ 0 = ground arith in
          rw end (record {
            word = text-ended s z;
            rest = ap text (drop-drop b start n ∙ sym (behind-end s z));
            keeps = unfold Keeps in λ a h. refl;
            further = omega arith;
          })
      | inr more ↦
          let ne : get_or s n 0 ≢ 0 = ground arith in
          let sum : start + n + 1 ≡ start + (n + 1) = omega arith in
          let shifted : drop (start + n + 1) b ≡ drop (n + 1) s =
            rw sum (drop-drop b start (n + 1)) in
          let kept = drop-set_behind b (start + n) (start + n + 1) 0 (omega arith) in
          rw more (record {
            word = ap text (drop-set b start n 0) ∙ text-cut s;
            rest = ap text (kept ∙ (shifted ∙ sym (behind-more s ne)));
            keeps = Keeps-set b start (start + n) (omega arith) (ground arith);
            further = omega arith;
          })
    ]

pub Keeps-lower : (i j : ℕ) (b c : List ℕ) → i ≤ j → Keeps j b c → Keeps i b c
unfolding Keeps
Keeps-lower i j b c le f a ends = f a (omega arith)

pub Keeps-at :
    (i : ℕ) (b c : List ℕ) (a : ℕ)
    → Keeps i b c
    → a + length (string_at b a) ≤ i
    → string_at c a ≡ string_at b a
unfolding Keeps
Keeps-at i b c a keeps ends = keeps a ends
