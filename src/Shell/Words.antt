-- ===== src/Shell/Words.antt =====
-- The words of a command line, and where the pointers of `shell_parse_command` stop in it.
use simple_kernel.Base.{
  ℕ, zero, suc, ◌+◌, ◌<◌, ◌≤◌, ◌≡◌, refl, sym, ap, ◌∙◌, arith, true, false, ◌&&◌, not, List, [],
  ◌∷◌, ◌++◌, ◌==◌, if◌then◌else◌, Bool-cases, inl, inr, length, get_or, take, drop, append_nil,
  length-append, snoc-append,
}
use simple_kernel.Kstring.Compare.{text}
use simple_kernel.Shell.{skip_spaces, skip_word}

-- The specification: the runs of bytes between blanks, in order. The first argument is the word that
-- has been read so far.
unfoldable pub flush : List ℕ → List (List ℕ)
flush [] = []
flush (c ∷ word) = (c ∷ word) ∷ []

unfoldable pub split : List ℕ → List ℕ → List (List ℕ)
split word [] = flush word
split word (c ∷ line) =
    if c == 32 then flush word ++ split [] line else split (word ++ (c ∷ [])) line

unfoldable pub words : List ℕ → List (List ℕ)
words line = split [] line

-- How many blanks, and how many bytes of a word, stand in front.
unfoldable pub lead : List ℕ → ℕ
lead [] = 0
lead (c ∷ s) = if c == 32 then suc (lead s) else 0

unfoldable pub word_size : List ℕ → ℕ
word_size [] = 0
word_size (c ∷ s) = if not (c == 0) && not (c == 32) then suc (word_size s) else 0

pub get_or-drop : (b : List ℕ) (i : ℕ) → get_or b i 0 ≡ get_or (drop i b) 0 0
get_or-drop [] zero = refl
get_or-drop [] (suc i) = refl
get_or-drop (c ∷ b) zero = refl
get_or-drop (c ∷ b) (suc i) = get_or-drop b i

drop-nil : (n : ℕ) → drop {A = ℕ} n [] ≡ []
drop-nil zero = refl
drop-nil (suc n) = refl

pub drop-drop : (b : List ℕ) (i k : ℕ) → drop (i + k) b ≡ drop k (drop i b)
drop-drop b zero k = ap (λ n. drop n b) (omega arith)
drop-drop [] (suc i) k = drop-nil (suc i + k) ∙ sym (drop-nil k)
drop-drop (c ∷ b) (suc i) k =
    let next : suc i + k ≡ suc (i + k) = omega arith in rw next (drop-drop b i k)

drop-short : (b : List ℕ) (i : ℕ) → length b ≤ i → drop i b ≡ []
drop-short [] zero h = refl
drop-short [] (suc i) h = refl
drop-short (c ∷ b) zero h = absurd (omega arith)
drop-short (c ∷ b) (suc i) h = drop-short b i (omega arith)

lead-step :
    (s : List ℕ) (i : ℕ) → (if get_or s 0 0 == 32 then i + 1 + lead (drop 1 s) else i) ≡ i + lead s
unfolding lead
lead-step [] i = ground arith
lead-step (c ∷ s) i = ground arith

word_size-step :
    (s : List ℕ) (i : ℕ)
    → (if not (get_or s 0 0 == 0) && not (get_or s 0 0 == 32)
        then i + 1 + word_size (drop 1 s)
        else i)
      ≡ i + word_size s
unfolding word_size
word_size-step [] i = ground arith
word_size-step (c ∷ s) i = ground arith

-- With rounds for what is left of the array, the two loops stop there.
pub skip_spaces-lead :
    (r : ℕ) (b : List ℕ) (i : ℕ) → length b ≤ r + i → skip_spaces r b i ≡ i + lead (drop i b)
unfolding skip_spaces lead
skip_spaces-lead zero b i h = rw (drop-short b i (omega arith)) (omega arith)
skip_spaces-lead (suc r) b i h =
    rw (skip_spaces-lead r b (i + 1) (omega arith), drop-drop b i 1, get_or-drop b i)
      (lead-step (drop i b) i)

pub skip_word-word_size :
    (r : ℕ) (b : List ℕ) (i : ℕ) → length b ≤ r + i → skip_word r b i ≡ i + word_size (drop i b)
unfolding skip_word word_size
skip_word-word_size zero b i h = rw (drop-short b i (omega arith)) (omega arith)
skip_word-word_size (suc r) b i h =
    rw (skip_word-word_size r b (i + 1) (omega arith), drop-drop b i 1, get_or-drop b i)
      (word_size-step (drop i b) i)

-- Blanks in front do not count.
pub words-lead : (s : List ℕ) → words (text s) ≡ words (text (drop (lead s) s))
unfolding words lead split flush text
words-lead [] = refl
words-lead (c ∷ s) = elim (Bool-cases (c == 32)) [
  | inl blank ↦
      let some_char : (c == 0) ≡ false = ground arith in rw (blank, some_char, blank) (words-lead s)
  | inr other ↦ rw other refl
]

-- What stands behind the first word and its end.
unfoldable pub behind : List ℕ → List ℕ
behind s = if get_or s (word_size s) 0 == 0 then drop (word_size s) s else drop (word_size s + 1) s

flush-some : (w : List ℕ) → 0 < length w → flush w ≡ w ∷ []
unfolding flush
flush-some [] h = absurd (omega arith)
flush-some (c ∷ w) h = refl

behind-cons :
    (c : ℕ) (s : List ℕ) → (not (c == 0) && not (c == 32)) ≡ true → behind (c ∷ s) ≡ behind s
unfolding behind word_size
behind-cons c s h =
    let next : suc (word_size s) + 1 ≡ suc (word_size s + 1) = omega arith in rw (h, next) refl

flush-none : flush [] ≡ []
unfolding flush
flush-none = refl

-- A word that has been begun goes on to the end of the run.
split-word :
    (w s : List ℕ)
    → 0 < length w + word_size s
    → split w (text s) ≡ (w ++ take (word_size s) s) ∷ words (text (behind s))
unfolding words split text word_size
split-word w [] h = unfold behind in rw (append_nil, flush-none) (flush-some w (omega arith))
split-word w (c ∷ s) h = elim (Bool-cases (not (c == 0) && not (c == 32))) [
  | inl inside ↦
      let some_char : (c == 0) ≡ false = ground arith in
      let other : (c == 32) ≡ false = ground arith in
      rw (behind-cons c s inside, inside, some_char, other)
        (split-word (w ++ (c ∷ [])) s (omega (arith, length-append w (c ∷ [])))
          ∙ ap (λ l. l ∷ words (text (behind s))) (snoc-append w (take (word_size s) s) c))
  | inr out ↦
      let begun : flush w ≡ w ∷ [] = flush-some w (ground arith) in
      elim (Bool-cases (c == 0)) [
        | inl end ↦ unfold behind in rw (out, end, append_nil) (rw (end, flush-none) begun)
        | inr more ↦
            let blank : (c == 32) ≡ true = ground arith in
            unfold behind in rw (out, more, blank, append_nil) (rw begun refl)
      ]
]

-- The first word is the run of bytes in front.
pub words-word :
    (s : List ℕ) → 0 < word_size s → words (text s) ≡ take (word_size s) s ∷ words (text (behind s))
unfolding words
words-word s more = split-word [] s (omega arith)

-- Behind the blanks stands the end of the line or a word.
pub lead-stops :
    (s : List ℕ) → (get_or (drop (lead s) s) 0 0 == 0) ≡ false → 0 < word_size (drop (lead s) s)
unfolding lead word_size
lead-stops [] h = ground arith
lead-stops (c ∷ s) h = elim (Bool-cases (c == 32)) [
  | inl blank ↦ rw blank (lead-stops s (rw blank at h))
  | inr other ↦
      let some_char : (c == 0) ≡ false = rw other at h in rw (other, some_char, other) (omega arith)
]
