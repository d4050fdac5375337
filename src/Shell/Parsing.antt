-- ===== src/Shell/Parsing.antt =====
-- `shell_parse_command` of shell.c: the strings that it cuts out of the buffer.
use simple_kernel.Base.{
  ℕ, zero, suc, ◌+◌, ◌-◌, ◌<◌, ◌≤◌, ◌≡◌, refl, sym, ap, ap₂, ◌∙◌, arith, true, List, [], ◌∷◌, ◌++◌,
  ◌==◌, ltb, map, Bool-cases, ◌⊎◌, inl, inr, length, get_or, take, drop, length-append, append_nil,
  snoc-append,
}
use simple_kernel.Kstring.Compare.{text}
use simple_kernel.Shell.{end_word, parse_args, parse_command, max_args}
use simple_kernel.Shell.Strings.{
  string_at, Keeps, Keeps-trans, Keeps-lower, Keeps-at, Ended, end_word-Ended, length-word,
  behind-end,
}
use simple_kernel.Shell.Words.{
  words, lead, word_size, behind, get_or-drop, drop-drop, skip_spaces-lead, skip_word-word_size,
  words-lead, words-word, lead-stops, split, flush,
}

-- What the last loop of the parser does from `i` on, with room for `room` more arguments.
record Cut (b : List ℕ) (i room : ℕ) (args : List ℕ) (r : List ℕ × List ℕ) : Type 0 where
  new : List ℕ
  added : r.1 ≡ args ++ new
  keeps : Keeps i b r.0
  strings : map (string_at r.0) new ≡ take room (words (string_at b i))

words-end : (s : List ℕ) → (get_or s 0 0 == 0) ≡ true → words (text s) ≡ []
unfolding words split flush text
words-end [] h = refl
words-end (c ∷ s) h = rw h refl

take_none : (n : ℕ) → take {A = List ℕ} n [] ≡ []
take_none zero = refl
take_none (suc n) = refl

-- The loop ends without another argument.
done :
    (b : List ℕ) (i room : ℕ) (args : List ℕ)
    → take room (words (string_at b i)) ≡ []
    → Cut b i room args (b, args)
done b i room args none_left = record {
  new = [];
  added = sym (append_nil args);
  keeps = unfold Keeps in λ a h. refl;
  strings = sym none_left;
}

-- An argument at `start`, and then the rest of the loop.
one_more :
    (b : List ℕ) (i start room : ℕ) (args : List ℕ) (e : List ℕ × ℕ) (r : List ℕ × List ℕ)
    → i ≤ start
    → words (string_at b i) ≡ words (string_at b start)
    → 0 < word_size (drop start b)
    → Ended b start e
    → Cut e.0 e.1 room (args ++ (start ∷ [])) r
    → Cut b i (suc room) args r
one_more b i start room args e r le same more w c =
    let s = drop start b in
    let ends : start + length (string_at e.0 start) ≤ e.1 = rw (w.word, length-word s) w.further in
    let kept = Keeps-trans start e.1 b e.0 r.0 (omega (arith, w.further)) w.keeps c.keeps in
    record {
      new = start ∷ c.new;
      added = c.added ∙ snoc-append args c.new start;
      keeps = Keeps-lower i start b r.0 le kept;
      strings =
          rw (same, words-word s more)
            (ap₂ ◌∷◌ (Keeps-at e.1 e.0 r.0 start c.keeps ends ∙ w.word)
              (c.strings ∙ ap (λ t. take room (words t)) w.rest));
    }

parse_args-Cut :
    (rounds : ℕ) (b : List ℕ) (i : ℕ) (args : List ℕ)
    → max_args < rounds + length args
    → length args ≤ max_args
    → Cut b i (max_args - length args) args (parse_args rounds b i args)
unfolding parse_args
parse_args-Cut zero b i args fuel fits = absurd (omega arith)
parse_args-Cut (suc rounds) b i args fuel fits =
    let lead_at = skip_spaces-lead (length b) b i (omega arith) in
    let start = i + lead (drop i b) in
    let word_at = skip_word-word_size (length b) b start (omega arith) in
    let here : drop start b ≡ drop (lead (drop i b)) (drop i b) = drop-drop b i (lead (drop i b)) in
    let same : words (string_at b i) ≡ words (string_at b start) =
      words-lead (drop i b) ∙ ap (λ t. words (text t)) (sym here) in
    elim (Bool-cases (get_or b i 0 == 0)) [
      | inl end ↦ rw end (done b i (max_args - length args) args (none_left i end))
      | inr some_char ↦ elim (Bool-cases (ltb (length args) max_args)) [
        | inr full ↦
            rw (some_char, full)
              (done b i (max_args - length args) args
                (let z : max_args - length args ≡ 0 = ground arith in rw z refl))
        | inl room ↦ elim (Bool-cases (get_or b start 0 == 0)) [
          | inl blank ↦
              rw (some_char, room, lead_at, blank)
                (done b i (max_args - length args) args (rw same (none_left start blank)))
          | inr more ↦
              rw (some_char, room, lead_at, more, word_at)
                (let e = end_word b (start + word_size (drop start b)) in
                  let longer = length-append args (start ∷ []) in
                  let count : max_args - length args
                      ≡ suc (max_args - length (args ++ (start ∷ []))) =
                    ground arith in
                  let word : 0 < word_size (drop start b) =
                    rw here (lead-stops (drop i b) (rw (get_or-drop b start, here) at more)) in
                  rw count (
                    one_more b i start (max_args - length (args ++ (start ∷ []))) args e _
                      (omega arith) same word (end_word-Ended b start)
                      (parse_args-Cut rounds e.0 e.1 (args ++ (start ∷ [])) (omega arith)
                        (ground arith))))
        ]
      ]
    ]
  where
    none_left :
        (j : ℕ)
        → (get_or b j 0 == 0) ≡ true
        → take (max_args - length args) (words (string_at b j)) ≡ []
    none_left j end =
        rw (words-end (drop j b) (rw (get_or-drop b j) at end)) (take_none (max_args - length args))

abbrev pub first_word : List (List ℕ) → List ℕ
first_word [] = []
first_word (w ∷ ws) = w

no_word : (s : List ℕ) → (get_or s 0 0 == 0) ≡ true → word_size s ≡ 0
unfolding word_size
no_word [] h = refl
no_word (c ∷ s) h = rw h refl

at_word :
    (b : List ℕ)
    → ((get_or (drop (0 + lead b) b) 0 0 == 0) ≡ true) ⊎ (0 < word_size (drop (0 + lead b) b))
at_word b =
    let e : 0 + lead b ≡ lead b = omega arith in
    rw e (elim (Bool-cases (get_or (drop (lead b) b) 0 0 == 0)) [
      | inl end ↦ inl end
      | inr more ↦ inr (lead-stops b more)
    ])

-- The line at the command, in its first word and the others.
first_rest :
    (s : List ℕ)
    → ((get_or s 0 0 == 0) ≡ true) ⊎ (0 < word_size s)
    → (take (word_size s) s ≡ first_word (words (text s)))
      × (words (text (behind s)) ≡ drop 1 (words (text s)))
first_rest s (inr more) = rw (words-word s more) (refl, refl)
first_rest s (inl end) =
    let none : word_size s ≡ 0 = no_word s end in
    let z : get_or s (word_size s) 0 ≡ 0 = rw none (ground arith) in
    rw (words-end s end, behind-end s z, none) (refl, words-end s end)

-- After shell_parse_command the string at the command is the first word of the line, and the
-- strings at the arguments are the words behind it, 16 at most.
pub parse_command-words :
    (buffer : List ℕ)
    → let p = parse_command buffer in
      let line = words (text buffer) in
      (string_at p.buffer p.cmd ≡ first_word line)
      × (map (string_at p.buffer) p.args ≡ take max_args (drop 1 line))
unfolding parse_command
parse_command-words buffer =
    let lead_at = skip_spaces-lead (length buffer) buffer 0 (omega arith) in
    let start = 0 + lead buffer in
    let s = drop start buffer in
    let e = end_word buffer (start + word_size s) in
    let w = end_word-Ended buffer start in
    let c = parse_args-Cut (max_args + 1) e.0 e.1 [] (omega arith) (omega arith) in
    let r = parse_args (max_args + 1) e.0 e.1 [] in
    let here : s ≡ drop (lead buffer) buffer = drop-drop buffer 0 (lead buffer) in
    let same : words (text buffer) ≡ words (text s) =
      words-lead buffer ∙ ap (λ t. words (text t)) (sym here) in
    let ends : start + length (string_at e.0 start) ≤ e.1 = rw (w.word, length-word s) w.further in
    let both = first_rest s (at_word buffer) in
    rw (lead_at, skip_word-word_size (length buffer) buffer start (omega arith), c.added, same)
      (
        Keeps-at e.1 e.0 r.0 start c.keeps ends ∙ (w.word ∙ both.0),
        c.strings ∙ ap (take max_args) (ap words w.rest ∙ both.1),
      )
