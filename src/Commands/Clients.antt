-- ===== src/Commands/Clients.antt =====
-- The clients that `handle_socket` of server/cmd_handlers.c takes, and the files that
-- `create_midi_files` writes for them, one by one.
use mks65_symphony.Prelude.{
  ℕ, zero, suc, ◌+◌, ◌≤◌, ◌<◌, ◌≡◌, inl, inr, ◌∙◌, refl, sym, ap, true, some, List, [], ◌∷◌, ◌++◌,
  ◌==◌, leb, get_elem?, length, length-append, arith, Bool-cases, ok,
}
use mks65_symphony.Midi.{Bytes, Mfile}
use mks65_symphony.Splitter.Split.{listed}
use mks65_symphony.Writer.{mfile_write_to_midi}
use mks65_symphony.Commands.Numbers.{decimal, length-decimal}
use mks65_symphony.Commands.State.{Host, ServerState}
use mks65_symphony.Commands.Files.{out_text, out_name, part_at, write_file, write_files}
use mks65_symphony.Commands.{setup_connections, handle_socket}

-- `n` clients connect, after `setup_connections`.
abbrev pub connected : ℕ → ServerState → ServerState
connected zero s = setup_connections s
connected (suc n) s = (handle_socket true (connected n s)).1

abbrev pub upto : ℕ → List ℕ
upto zero = []
upto (suc n) = upto n ++ n ∷ []

socket-next :
    (n : ℕ) (s : ServerState)
    → (handle_socket true (record s { clients = upto n; tid = n; accepting_clients = true })).1
      ≡ record s { clients = upto (suc n); tid = suc n; accepting_clients = true }
unfolding handle_socket
socket-next n s =
    let e : n + 1 ≡ suc n = omega arith in
    ap (λ (k : ℕ). record s { clients = upto (suc n); tid = k; accepting_clients = true }) e

-- The thread that is started for the `i`-th client has the number `i`.
pub connected_lem :
    (n : ℕ) (s : ServerState)
    → connected n s ≡ record s { clients = upto n; tid = n; accepting_clients = true }
unfolding setup_connections
connected_lem zero s = refl
connected_lem (suc n) s =
    ap (λ (t : ServerState). (handle_socket true t).1) (connected_lem n s) ∙ socket-next n s

pub length-upto : (n : ℕ) → length (upto n) ≡ n
length-upto zero = refl
length-upto (suc n) = omega (arith, length-append (upto n) (n ∷ []), length-upto n)

snoc-get : (xs : List ℕ) (x i : ℕ) → i < length xs → get_elem? (xs ++ x ∷ []) i ≡ get_elem? xs i
snoc-get [] x i lt = absurd (omega arith)
snoc-get (y ∷ xs) x zero lt = refl
snoc-get (y ∷ xs) x (suc i) lt = snoc-get xs x i (omega arith)

last-get : (xs : List ℕ) (x : ℕ) → get_elem? (xs ++ x ∷ []) (length xs) ≡ some x
last-get [] x = refl
last-get (y ∷ xs) x = last-get xs x

pub upto-get : (n i : ℕ) → i < n → get_elem? (upto n) i ≡ some i
upto-get zero i lt = absurd (omega arith)
upto-get (suc n) i lt = elim (Bool-cases (i == n)) [
  | inl h ↦
      let e : i ≡ n = ground arith in
      rw e (ap (get_elem? (upto n ++ n ∷ [])) (sym (length-upto n)) ∙ last-get (upto n) n)
  | inr h ↦
      let less : i < n = ground arith in
      snoc-get (upto n) n i (omega (arith, length-upto n)) ∙ upto-get n i less
]

pub listed-get :
    (body : ℕ → Mfile) (n j i : ℕ) → i < n → get_elem? (listed body n j) i ≡ some (body (i + j))
listed-get body zero j i lt = absurd (omega arith)
listed-get body (suc n) j zero lt = let e : 0 + j ≡ j = omega arith in rw e refl
listed-get body (suc n) j (suc i) lt =
    let e : i + (j + 1) ≡ suc i + j = omega arith in
    listed-get body n (j + 1) i (omega arith) ∙ ap (λ (k : ℕ). some (body k)) e

pub out_name-fits : (i : ℕ) → i < 1000 → out_name i ≡ ok (out_text i)
unfolding out_name
out_name-fits i lt =
    let n = length-append (decimal i) (46 ∷ 109 ∷ 105 ∷ 100 ∷ []) in
    let few : length (out_text i) + 1 ≤ 12 = omega (arith, n, length-decimal i lt) in
    let fits : leb (length (out_text i) + 1) 12 ≡ true = ground arith in rw fits refl

-- The files in the list, by name.
abbrev pub named : Bytes → (ℕ → Bytes) → ℕ → ℕ → List (Bytes × Bytes)
named dir content zero i = []
named dir content (suc n) i = (dir ++ out_text i, content i) ∷ named dir content n (i + 1)

pub named-get :
    (dir : Bytes) (content : ℕ → Bytes) (n j i : ℕ)
    → i < n
    → get_elem? (named dir content n j) i ≡ some (dir ++ out_text (i + j), content (i + j))
named-get dir content zero j i lt = absurd (omega arith)
named-get dir content (suc n) j zero lt = let e : 0 + j ≡ j = omega arith in rw e refl
named-get dir content (suc n) j (suc i) lt =
    let e : i + (j + 1) ≡ suc i + j = omega arith in
    named-get dir content n (j + 1) i (omega arith)
    ∙ ap (λ (k : ℕ). some (dir ++ out_text k, content k)) e

part_at-listed :
    (body : ℕ → Mfile) (n i : ℕ) → i < n → part_at (some (listed body n 0)) i ≡ ok (body i)
part_at-listed body n i lt =
    let z : i + 0 ≡ i = omega arith in rw (part_at, listed-get body n 0 i lt, z) refl

module _ (host : Host) (dir : Bytes) (body : ℕ → Mfile) (content : ℕ → Bytes) (top : ℕ) where
  write_file-done :
      (i : ℕ)
      → i < top
      → top ≤ 1000
      → host.can_write (dir ++ out_text i) ≡ true
      → mfile_write_to_midi host.writer true (body i) ≡ ok (content i)
      → write_file host dir (some (listed body top 0)) i ≡ ok (dir ++ out_text i, content i)
  unfolding write_file
  write_file-done i lt few can e =
      rw (out_name-fits i (omega arith), part_at-listed body top i lt, can, e) refl

  pub write_files-done :
      (n i : ℕ)
      → n + i ≡ top
      → top ≤ 1000
      → ((j : ℕ) → host.can_write (dir ++ out_text j) ≡ true)
      → ((j : ℕ) → j < top → mfile_write_to_midi host.writer true (body j) ≡ ok (content j))
      → write_files host dir (some (listed body top 0)) n i ≡ ok (named dir content n i)
  unfolding write_files
  write_files-done zero i e few can w = refl
  write_files-done (suc n) i e few can w =
      rw
        (
          write_file-done i (omega arith) few (can i) (w i (omega arith)),
          write_files-done n (i + 1) (omega arith) few can w,
        )
        refl
