-- ===== src/Memory/Threads.antt =====
-- The list of client threads of server/server_thread.c on the heap, with the part of
-- `handle_socket` of server/cmd_handlers.c that puts a client into it and `clear_connections`
-- there.
pub mod Append
pub mod Arrive
pub mod Connections
pub mod Lists
pub mod Reconnect
use mks65_symphony.Prelude.{
  refl, ℕ, zero, suc, ◌+◌, some, List, [], ◌∷◌, ◌==◌, if◌then◌else◌, Result, ok, trap, Trap,
}
use Trap.{exited, null_deref, out_of_fuel}
use mks65_symphony.Memory.{
  Ptr, null, ThreadArg, ThreadNode, Object, Heap, thread_arg, tnode, tlist, Cmd, pure, fail, ◌>>=◌,
  ◌>>◌, write, store, free, load_tnode, load_tlist, load_thread_arg,
}
use mks65_symphony.Memory.Chain.{free_chain, Link}

abbrev pub thread_link : Link ThreadNode
thread_link = record {
  object = tnode;
  next = λ n. n.next;
  block = λ n. n.arg;
  set_next = λ n p. record n { next = p };
  next-set_next = λ n p. refl;
  block-set_next = λ n p. refl;
}

unfoldable pub append_tnode : Ptr → Ptr → Cmd (Unit {0})
append_tnode list node = do
  l ← load_tlist list
  if l.len == 0
      then store list (tlist (record { first = node; last = node; len = l.len + 1 }))
      else (do
        n ← load_tnode l.last
        store l.last (tnode (record n { next = node }))
        store list (tlist (record l { last = node; len = l.len + 1 })))

unfoldable pub free_tnode : Ptr → Cmd (Unit {0})
free_tnode p = do n ← load_tnode p; free n.arg; free p

unfoldable pub next_tnode : Ptr → Cmd Ptr
next_tnode p = do n ← load_tnode p; pure n.next

-- `k` bounds the rounds of the loop over the nodes.
unfoldable pub free_tlist : ℕ → Ptr → Cmd (Unit {0})
unfolding free_chain next_tnode free_tnode
free_tlist k p = do l ← load_tlist p; free_chain next_tnode free_tnode k l.first; free p

-- What `server_thread` reads of its argument when it starts to run: its socket and its number.
unfoldable pub read_arg : Ptr → Cmd (ℕ × ℕ)
read_arg p = do arg ← load_thread_arg p; pure (arg.socket, arg.tid)

-- The loop of `handle_quit` over the nodes; the result is the threads that it cancels.
unfoldable pub cancel_each : ℕ → Ptr → Cmd (List ℕ)
cancel_each zero p h = trap out_of_fuel
cancel_each (suc k) p h =
    if p == null
    then ok ([], h)
    else (do n ← load_tnode p; rest ← cancel_each k n.next; pure (n.thread ∷ rest)) h

-- What `handle_quit` does to the list.
unfoldable pub quit_clients : ℕ → Ptr → Cmd (List ℕ)
unfolding cancel_each
quit_clients k p = do l ← load_tlist p; cancelled ← cancel_each k l.first; free p; pure cancelled

-- A client that `accept` gave: its socket, its number, the thread that `pthread_create` made, and
-- the addresses that the two calls of `malloc` gave, null where there was no memory.
pub record Arrival : Type 0 where
  pub socket : ℕ
  pub tid : ℕ
  pub thread : ℕ
  pub arg_at : Ptr
  pub node_at : Ptr

-- `malloc` that gave `p`, and the fields then written.
unfoldable pub alloc : Ptr → Object → Cmd Ptr
alloc p o h = if p == null then ok (null, h) else ok (p, write h p (some o))

unfoldable pub new_tlist : Ptr → Cmd Ptr
unfolding alloc
new_tlist p = alloc p (tlist (record { first = null; last = null; len = 0 }))

unfoldable pub new_tnode : Ptr → ℕ → Ptr → Cmd Ptr
unfolding alloc
new_tnode p thread arg = do
  node ← alloc p (tnode (record { thread = thread; arg = arg; next = null }))
  if node == null then fail (exited 1) else pure node

-- The end of `handle_socket`; the result of its `malloc` is not looked at.
unfoldable pub add_client : Ptr → Arrival → Cmd (Unit {0})
unfolding alloc new_tnode append_tnode
add_client clients a = do
  arg ← alloc a.arg_at (thread_arg (record { socket = a.socket; tid = a.tid }))
  if arg == null then fail null_deref else pure tt
  node ← new_tnode a.node_at a.thread arg
  append_tnode clients node

-- `handle_socket` for one client after the other.
unfoldable pub add_clients : Ptr → List Arrival → Cmd (Unit {0})
unfolding add_client
add_clients clients [] = pure tt
add_clients clients (a ∷ arrivals) = add_client clients a >> add_clients clients arrivals

unfoldable pub free_connections : ℕ → Ptr → Cmd (Unit {0})
unfolding free_tlist
free_connections k clients = if clients == null then pure tt else free_tlist k clients

-- From `setup_connections` to the `clear_connections` of a `reconnect`.
unfoldable pub connections : ℕ → Ptr → List Arrival → Cmd (Unit {0})
unfolding new_tlist add_clients free_connections
connections k p arrivals = do
  clients ← new_tlist p
  add_clients clients arrivals
  free_connections k clients
