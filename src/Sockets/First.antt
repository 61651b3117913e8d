-- ===== src/Sockets/First.antt =====
-- Which address the loops of server/socket.c and client/socket_client.c end with.
use mathlib.Core.List.{append-nil}
use mks65_symphony.Prelude.{
  ℕ, ◌≡◌, ◌∙◌, refl, sym, ap, Bool, true, none, some, List, [], ◌∷◌, ◌++◌, All, ok, trap, Trap,
}
use Trap.{exited}
use mks65_symphony.Sockets.{
  Attempt, no_socket, refused, done, bind_first, setup_server, connect_first, connect_to,
}

-- An address that the loop leaves for the next one.
abbrev pub IsPassed : Attempt → Type 0
IsPassed no_socket = Unit
IsPassed (refused _) = Unit
IsPassed _ = ⊥

-- The sockets that were opened for them, the last first.
abbrev pub opened : List Attempt → List ℕ → List ℕ
opened [] before = before
opened (refused sockfd ∷ p) before = opened p (sockfd ∷ before)
opened (_ ∷ p) before = opened p before

module _ (sets : ℕ → Bool) (set : (fd : ℕ) → sets fd ≡ true) where
  bind_first-passed :
      (p q : List Attempt) (closed : List ℕ)
      → All IsPassed p
      → bind_first sets (p ++ q) closed ≡ bind_first sets q (opened p closed)
  unfolding bind_first
  bind_first-passed [] q closed h = refl
  bind_first-passed (no_socket ∷ p) q closed h = bind_first-passed p q closed h.1
  bind_first-passed (refused s ∷ p) q closed h = rw (set s) (bind_first-passed p q (s ∷ closed) h.1)
  bind_first-passed (done s ∷ p) q closed h = absurd h.0

  setup_server-first :
      (p q : List Attempt) (sockfd : ℕ)
      → All IsPassed p
      → setup_server sets (some (p ++ done sockfd ∷ q)) true ≡ ok (sockfd, opened p [])
  unfolding setup_server bind_first
  setup_server-first p q sockfd h =
      rw (setup_server, bind_first-passed p (done sockfd ∷ q) [] h, set sockfd) refl

  setup_server-none :
      (p : List Attempt) → All IsPassed p → setup_server sets (some p) true ≡ trap (exited 1)
  unfolding setup_server bind_first
  setup_server-none p h =
      let e : bind_first sets p [] ≡ trap (exited 1) =
        ap (λ (l : List Attempt). bind_first sets l []) (sym (append-nil p))
        ∙ bind_first-passed p [] [] h in
      rw (setup_server, e) refl

connect_first-passed :
    (p q : List Attempt) (closed : List ℕ)
    → All IsPassed p
    → connect_first (p ++ q) closed ≡ connect_first q (opened p closed)
unfolding connect_first
connect_first-passed [] q closed h = refl
connect_first-passed (no_socket ∷ p) q closed h = connect_first-passed p q closed h.1
connect_first-passed (refused s ∷ p) q closed h = connect_first-passed p q (s ∷ closed) h.1
connect_first-passed (done s ∷ p) q closed h = absurd h.0

-- After addresses that give no socket, or refuse, both functions end with the first address that
-- serves, if `setsockopt` succeeds: they return its descriptor and have closed exactly the sockets of
-- those before it. If no address serves the server exits, and the client returns -1 with every socket
-- closed.
pub first-serves :
    (sets : ℕ → Bool) (p q : List Attempt) (sockfd : ℕ)
    → ((fd : ℕ) → sets fd ≡ true)
    → All IsPassed p
    → (setup_server sets (some (p ++ done sockfd ∷ q)) true ≡ ok (sockfd, opened p []))
      × (connect_to (some (p ++ done sockfd ∷ q)) ≡ (some sockfd, opened p []))
      × (setup_server sets (some p) true ≡ trap (exited 1))
      × (connect_to (some p) ≡ (none, opened p []))
unfolding connect_to connect_first
first-serves sets p q sockfd set h = (
  setup_server-first sets set p q sockfd h,
  connect_first-passed p (done sockfd ∷ q) [] h,
  setup_server-none sets set p h,
  ap (λ (l : List Attempt). connect_first l []) (sym (append-nil p))
      ∙ connect_first-passed p [] [] h,
)
