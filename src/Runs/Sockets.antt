-- ===== src/Runs/Sockets.antt =====
-- A socket that moves two bytes at a time, each call in five milliseconds: reads and writes that are
-- complete, and a read that is not.
use alba.Base.{
  ℕ, ◌+◌, ◌≤◌, ◌≡◌, refl, sym, List, [], ◌∷◌, ◌++◌, some, length, length-take, take, drop,
  take-append-drop, min, arith,
}
use mathlib.Core.Option.{some-injective, none-ne-some}
use alba.Exec.{returns, ◌>>=◌, gets, pure}
use alba.Exec.Triples.{Ends}
use alba.Rdma.{
  Rsocket, RdmaTransport, on_socket, is_positive, time_remaining, read_exact, read_rounds,
  write_exact, check_poll, check_read,
}
use alba.Rdma.Streams.{IsStream}
use alba.Rdma.Delivery.{AllRead, Stopped, read_exact-Delivers}
use alba.Rdma.Sending.{AllSent, Broken, write_exact-Delivers}

record Wireless : Type 0 where
  coming : List ℕ
  taken : List ℕ
  clock : ℕ

abbrev pause : Wireless → Wireless
pause s = record s { clock = s.clock + 5000000 }

abbrev slow : Rsocket
slow = record {
  State = Wireless;
  now = λ s. s.clock;
  rpoll = λ e timeout s. (some 1, pause s);
  rsend = λ bytes s. (
    some (min 2 (length bytes)),
    pause (record s { taken = s.taken ++ take (min 2 (length bytes)) bytes }),
  );
  rrecv = λ n s.
      (some (take (min 2 n) s.coming), pause (record s { coming = drop (min 2 n) s.coming }));
}

cut :
    (xs bytes : List ℕ) (k n : ℕ)
    → k ≤ n
    → take k xs ≡ bytes
    → (xs ≡ bytes ++ drop k xs) × (length bytes ≤ n)
cut xs bytes k n l e = rw (← e) (sym (take-append-drop k xs), omega (arith, length-take k xs, l))

moved :
    (before bytes : List ℕ) (k n : ℕ)
    → k ≡ n
    → 1 ≤ k
    → k ≤ length bytes
    → (before ++ take k bytes ≡ before ++ take n bytes) × ((1 ≤ n) × (n ≤ length bytes))
moved before bytes k n e p l = rw (← e) (refl, (p, l))

abbrev slow-IsStream : IsStream slow
slow-IsStream = record {
  coming = λ s. s.coming;
  taken = λ s. s.taken;
  rpoll-coming = λ e n s. refl;
  rpoll-taken = λ e n s. refl;
  rrecv-some =
      λ n s bytes e. cut s.coming bytes (min 2 n) n (omega arith) (some-injective _ bytes e);
  rrecv-none = λ n s e. absurd (none-ne-some _ (sym e));
  rsend-some = λ bytes s n e p.
      moved s.taken bytes (min 2 (length bytes)) n (some-injective _ n e) (omega (arith, p))
        (omega arith);
  rsend-none = λ bytes s e. absurd (none-ne-some _ (sym e));
}

abbrev started : ℕ → RdmaTransport slow
started deadline = record {
  socket = record { coming = 1 ∷ 2 ∷ 3 ∷ 4 ∷ 5 ∷ []; taken = 9 ∷ []; clock = 0 };
  deadline = deadline;
}

abbrev buffer : List ℕ
buffer = 70 ∷ 71 ∷ 72 ∷ []

whole_read : read_exact slow buffer 3 (started 1000000000) ≡ (
  returns (1 ∷ 2 ∷ 3 ∷ []),
  record {
    socket = record { coming = 4 ∷ 5 ∷ []; taken = 9 ∷ []; clock = 20000000 };
    deadline = 1000000000;
  },
)
unfolding read_exact ◌>>=◌ gets read_rounds on_socket check_poll pure check_read is_positive
    time_remaining
whole_read = refl

read_exact-Delivers_example :
    Ends
      (λ after c'.
        (bytes : List ℕ) × ((after ≡ bytes ++ drop (length bytes) buffer)
          × AllRead slow slow-IsStream (1 ∷ 2 ∷ 3 ∷ 4 ∷ 5 ∷ []) [] 3 bytes c'))
      (Stopped slow slow-IsStream (1 ∷ 2 ∷ 3 ∷ 4 ∷ 5 ∷ []))
      (read_exact slow buffer 3 (started 1000000000))
read_exact-Delivers_example =
    read_exact-Delivers slow slow-IsStream buffer (started 1000000000) (omega arith)

write_exact-Delivers_example :
    Ends
      (λ u c'. (n : ℕ) × AllSent slow slow-IsStream (9 ∷ []) buffer n c')
      (Broken slow slow-IsStream (9 ∷ []) buffer)
      (write_exact slow buffer 3 (started 1000000000))
write_exact-Delivers_example =
    write_exact-Delivers slow slow-IsStream buffer (started 1000000000) (omega arith)

-- The deadline passes while the first two bytes come: the third byte of the buffer is what it was.
late_read : read_exact slow buffer 3 (started 8000000) ≡ (
  returns (1 ∷ 2 ∷ 72 ∷ []),
  record {
    socket = record { coming = 3 ∷ 4 ∷ 5 ∷ []; taken = 9 ∷ []; clock = 10000000 };
    deadline = 8000000;
  },
)
unfolding read_exact ◌>>=◌ gets read_rounds on_socket check_poll pure check_read is_positive
    time_remaining
late_read = refl
