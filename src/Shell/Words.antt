-- ===== src/Shell/Words.antt =====
-- The words of a line, by one pass over it, and that `parse_line` of server/utils.c gives them.
use mks65_symphony.Prelude.{
  ℕ, zero, suc, ◌+◌, ◌-◌, ◌<◌, ◌≤◌, ◌≡◌, ◌∙◌, refl, sym, ap, true, false, Option, none, some, List,
  [], ◌∷◌, ◌++◌, map, ◌==◌, lt→ltb, Bool-cases, Option-cases, inl, inr, if◌then◌else◌, length,
  length-append, set, replicate, ok, arith,
}
use mathlib.Core.List.{append_assoc}
use mks65_symphony.Midi.{Bytes}
use mks65_symphony.Shell.Lines.{
  space, count_char, skip, word, behind, strtok, Slot, put, store_tokens, store_words, parse_line,
}

-- The word that the line begins with, empty if a space stands first, and the words behind it.
abbrev pub joined_to : Bytes × List Bytes → List Bytes
joined_to ([], ws) = ws
joined_to (b ∷ w, ws) = (b ∷ w) ∷ ws

unfoldable pub split : Bytes → Bytes × List Bytes
split [] = ([], [])
split (b ∷ s) = let t = split s in if b == space then ([], joined_to t) else (b ∷ t.0, t.1)

-- The longest runs of bytes that are no spaces.
abbrev pub words : Bytes → List Bytes
words s = joined_to (split s)

split_lem : (s : Bytes) → split s ≡ (word s, words (behind s))
unfolding split word behind
split_lem [] = refl
split_lem (b ∷ s) = elim (Bool-cases (b == space)) [
  | inl h ↦ rw h refl
  | inr h ↦ rw (h, split_lem s) refl
]

joined_to-length : (t : Bytes × List Bytes) → length (joined_to t) ≤ length t.1 + 1
joined_to-length ([], ws) = omega arith
joined_to-length (b ∷ w, ws) = omega arith

count_le : (s : Bytes) → length (split s).1 ≤ count_char s space
unfolding split count_char
count_le [] = omega arith
count_le (b ∷ s) = elim (Bool-cases (b == space)) [
  | inl h ↦ rw h (omega (arith, joined_to-length (split s), count_le s))
  | inr h ↦ rw h (count_le s)
]

-- What `strtok` gives, and the words of what it leaves.
abbrev pub all_tokens : Option (Bytes × Bytes) → List Bytes
all_tokens none = []
all_tokens (some (w, s)) = w ∷ words s

strtok-space : (b : ℕ) (s : Bytes) → (b == space) ≡ true → strtok (b ∷ s) ≡ strtok s
unfolding strtok skip
strtok-space b s h = rw h refl

strtok-letter :
    (b : ℕ) (s : Bytes) → (b == space) ≡ false → strtok (b ∷ s) ≡ some (b ∷ word s, behind s)
unfolding strtok skip word behind
strtok-letter b s h = rw (h, h) refl

words-space : (b : ℕ) (s : Bytes) → (b == space) ≡ true → words (b ∷ s) ≡ words s
unfolding split
words-space b s h = rw h refl

words-letter :
    (b : ℕ) (s : Bytes) → (b == space) ≡ false → words (b ∷ s) ≡ (b ∷ word s) ∷ words (behind s)
unfolding split
words-letter b s h = rw (h, split_lem s) refl

strtok-nil : strtok [] ≡ none
unfolding strtok skip
strtok-nil = refl

pub split-nil : split [] ≡ ([], [])
unfolding split
split-nil = refl

pub words-strtok : (s : Bytes) → words s ≡ all_tokens (strtok s)
words-strtok [] = rw (strtok-nil, split-nil) refl
words-strtok (b ∷ s) = elim (Bool-cases (b == space)) [
  | inl h ↦ words-space b s h ∙ words-strtok s ∙ ap all_tokens (sym (strtok-space b s h))
  | inr h ↦ words-letter b s h ∙ ap all_tokens (sym (strtok-letter b s h))
]

behind-length : (s : Bytes) → length (behind s) ≤ length s
unfolding behind
behind-length [] = omega arith
behind-length (b ∷ s) = ground (arith, behind-length s)

strtok-length : (s w s' : Bytes) → strtok s ≡ some (w, s') → length s' < length s
strtok-length [] w s' h = cc (strtok-nil, h)
strtok-length (b ∷ s) w s' h = elim (Bool-cases (b == space)) [
  | inl e ↦ omega (arith, strtok-length s w s' (sym (strtok-space b s e) ∙ h))
  | inr e ↦
      let same : behind s ≡ s' = cc (strtok-letter b s e, h) in
      omega (arith, behind-length s, ap length same)
]

set-next :
    {A : Type 0} (xs : List A) (k : ℕ) (a v : A)
    → set (xs ++ replicate (suc k) a) (length xs) v ≡ (xs ++ v ∷ []) ++ replicate k a
set-next {A = A} [] k a v = refl
set-next {A = A} (x ∷ xs) k a v = ap (λ (l : List A). x ∷ l) (set-next xs k a v)

-- The entries that hold words, and those that are left.
abbrev pub slots : List Bytes → ℕ → List Slot
slots ws k = map (λ (w : Bytes). some (some w)) ws ++ replicate k none

put-next :
    (xs : List Slot) (k : ℕ) (w : Option Bytes)
    → put (xs ++ replicate (suc k) none) (length xs) w
      ≡ ok ((xs ++ some w ∷ []) ++ replicate k none)
put-next xs k w =
    let unset : List Slot = replicate (suc k) none in
    let inside =
      lt→ltb (length xs) (length (xs ++ unset)) (omega (arith, length-append xs unset)) in
    rw (inside, set-next xs k none (some w)) refl

store_tokens-none :
    (fuel : ℕ) (s : Bytes) (args : List Slot) (i : ℕ)
    → strtok s ≡ none
    → store_tokens (suc fuel) s args i ≡ ok args
unfolding store_tokens
store_tokens-none fuel s args i h = rw (store_tokens, h) refl

store_tokens-some :
    (fuel : ℕ) (s : Bytes) (args args' : List Slot) (i : ℕ) (w s' : Bytes)
    → strtok s ≡ some (w, s')
    → put args i (some w) ≡ ok args'
    → store_tokens (suc fuel) s args i ≡ store_tokens fuel s' args' (i + 1)
unfolding store_tokens
store_tokens-some fuel s args args' i w s' h p = rw (store_tokens, h, p) refl

store_tokens-words :
    (fuel : ℕ) (s : Bytes) (ws : List Bytes) (xs : List Slot) (k : ℕ)
    → length s < fuel
    → words s ≡ ws
    → store_tokens fuel s (xs ++ replicate (length ws + k) none) (length xs) ≡ ok (xs ++ slots ws k)
store_tokens-words zero s ws xs k lt e = absurd (omega arith)
store_tokens-words (suc fuel) s [] xs k lt e = elim (Option-cases (strtok s)) [
  | inl h ↦ let z : 0 + k ≡ k = omega arith in rw z (store_tokens-none fuel s _ _ h)
  | inr (t, h) ↦ cc (words-strtok s, ap all_tokens h, e)
]
store_tokens-words (suc fuel) s (v ∷ vs) xs k lt e = elim (Option-cases (strtok s)) [
  | inl h ↦ cc (words-strtok s, ap all_tokens h, e)
  | inr ((w, s'), h) ↦
      let n : suc (length vs) + k ≡ suc (length vs + k) = omega arith in
      let same : w ∷ words s' ≡ v ∷ vs = sym (words-strtok s ∙ ap all_tokens h) ∙ e in
      let more = strtok-length s w s' h in
      let at : length (xs ++ some (some w) ∷ []) ≡ length xs + 1 =
        length-append xs (some (some w) ∷ []) in
      let xs' : List Slot = xs ++ some (some w) ∷ [] in
      rw n (
        store_tokens-some fuel s _ (xs' ++ replicate (length vs + k) none) (length xs) w s' h
          (put-next xs (length vs + k) (some w))
        ∙ ap (λ (i : ℕ). store_tokens fuel s' (xs' ++ replicate (length vs + k) none) i) (sym at)
        ∙ store_tokens-words fuel s' vs xs' k (omega (arith, more)) (cc same)
        ∙ ap (λ (l : List Slot). ok l) (append_assoc xs (some (some w) ∷ []) (slots vs k))
        ∙ ap (λ (u : Bytes). ok (xs ++ some (some u) ∷ slots vs k)) (cc same))
]

store_words-words :
    (line w : Bytes) (ws : List Bytes) (k : ℕ)
    → words line ≡ w ∷ ws
    → store_words line (replicate (suc (length ws + k)) none) ≡ ok (slots (w ∷ ws) k)
unfolding store_words
store_words-words line w ws k e = elim (Option-cases (strtok line)) [
  | inl h ↦ cc (words-strtok line, ap all_tokens h, e)
  | inr ((v, s'), h) ↦
      let same : v ∷ words s' ≡ w ∷ ws = sym (words-strtok line ∙ ap all_tokens h) ∙ e in
      let more = strtok-length line v s' h in
      rw (store_words, h, put-next [] (length ws + k) (some v))
        (store_tokens-words (length line + 1) s' ws (some (some v) ∷ []) k (omega (arith, more))
            (cc same)
          ∙ ap (λ (u : Bytes). ok (some (some u) ∷ slots ws k)) (cc same))
]

store_words-blank :
    (line : Bytes) (k : ℕ)
    → words line ≡ []
    → store_words line (replicate (suc k) none) ≡ ok (some none ∷ replicate k none)
unfolding store_words
store_words-blank line k e = elim (Option-cases (strtok line)) [
  | inl h ↦ rw (store_words, h, put-next [] k none) refl
  | inr (t, h) ↦ cc (words-strtok line, ap all_tokens h, e)
]

-- For a line with a word in it `parse_line` writes into no entry that is not there, and always
-- returns: the entries hold the line's words in order; behind them, one entry for each space that
-- separates nothing is left unset; and the number that it reports counts these too.
pub parse_line_lem :
    (line w : Bytes) (ws : List Bytes)
    → words line ≡ w ∷ ws
    → (k : ℕ) × (count_char line space + 1 ≡ suc (length ws) + k)
      × (parse_line line ≡ ok (slots (w ∷ ws) k, suc (length ws) + k))
unfolding parse_line
parse_line_lem line w ws e =
    let c = count_char line space in
    let k = c - length ws in
    let many = ap length e in
    let n : c + 1 ≡ suc (length ws) + k =
      omega (arith, joined_to-length (split line), count_le line, many) in
    let s : suc (length ws) + k ≡ suc (length ws + k) = omega arith in
    (k, n, rw (n, s, store_words-words line w ws k e) refl)

-- A line of spaces only: `args[0]` is a null pointer, and the other entries are never set.
pub parse_line-blank :
    (line : Bytes)
    → words line ≡ []
    → parse_line line
      ≡ ok (some none ∷ replicate (count_char line space) none, count_char line space + 1)
unfolding parse_line
parse_line-blank line e =
    let c = count_char line space in
    let s : c + 1 ≡ suc c = omega arith in rw (s, store_words-blank line c e) refl
