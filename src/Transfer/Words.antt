-- ===== src/Transfer/Words.antt =====
-- Numbers in network order come back as they were: server/server_thread.c to client/client.c.
use mks65_symphony.Prelude.{ℕ, ◌/◌, ◌%◌, ◌^◌, ◌<◌, ◌≡◌, [], ◌∷◌, arith}
use mks65_symphony.Midi.{Bytes}
use mks65_symphony.Transfer.{ntohl}

-- The number that four bytes stand for, and 0 for any other list.
abbrev pub of_network : Bytes → ℕ
of_network (a ∷ b ∷ c ∷ d ∷ []) = ntohl a b c d
of_network _ = 0

pub ntohl-htonl :
    (n : ℕ)
    → n < 2 ^ 32
    → ntohl (n / 2 ^ 24 % 2 ^ 8) (n / 2 ^ 16 % 2 ^ 8) (n / 2 ^ 8 % 2 ^ 8) (n % 2 ^ 8) ≡ n
unfolding ntohl
ntohl-htonl n h = omega arith
