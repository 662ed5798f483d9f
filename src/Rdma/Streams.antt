-- ===== src/Rdma/Streams.antt =====
-- Sockets that are streams, and the loops over them.
use mathlib.Core.Bool.{true≢false}
use alba.Base.{
  ℕ, ◌-◌, ◌≤◌, ◌≡◌, refl, sym, List, ◌++◌, Bool, true, false, ◌&&◌, Bool-cases, none, some, ◌⊎◌,
  inl, inr, length, take, ltb, le_of_ltb-false, arith,
}
use alba.Exec.Triples.{Triple}
use alba.Rdma.{Event, Rsocket, RdmaTransport, on_socket, is_positive, time_remaining}

-- A connected socket: the bytes that are still to come, and the bytes it has taken.
pub record IsStream (S : Rsocket) : Type 0 where
  pub coming : S.State → List ℕ
  pub taken : S.State → List ℕ
  pub rpoll-coming : (e : Event) (n : ℕ) (s : S.State) → coming (S.rpoll e n s).1 ≡ coming s
  pub rpoll-taken : (e : Event) (n : ℕ) (s : S.State) → taken (S.rpoll e n s).1 ≡ taken s
  pub rrecv-some :
      (n : ℕ) (s : S.State) (bytes : List ℕ)
      → (S.rrecv n s).0 ≡ some bytes
      → (coming s ≡ bytes ++ coming (S.rrecv n s).1) × (length bytes ≤ n)
  pub rrecv-none :
      (n : ℕ) (s : S.State) → (S.rrecv n s).0 ≡ none → coming (S.rrecv n s).1 ≡ coming s
  pub rsend-some :
      (bytes : List ℕ) (s : S.State) (n : ℕ)
      → (S.rsend bytes s).0 ≡ some n
      → 1 ≤ length bytes
      → (taken (S.rsend bytes s).1 ≡ taken s ++ take n bytes) × ((1 ≤ n) × (n ≤ length bytes))
  pub rsend-none :
      (bytes : List ℕ) (s : S.State)
      → (S.rsend bytes s).0 ≡ none
      → taken (S.rsend bytes s).1 ≡ taken s

right_false : (a b : Bool) → a ≡ true → (a && b) ≡ false → b ≡ false
right_false true b h e = e
right_false false b h e = absurd (true≢false (sym h))

pub goes_on : (n : ℕ) (b : Bool) → (ltb 0 n && b) ≡ true → 1 ≤ n
goes_on n true h = ground arith
goes_on n false h = ground arith

pub and_false : (b : Bool) → (b && false) ≡ false
and_false true = refl
and_false false = refl

module _ (S : Rsocket) where
  pub Triple-on_socket :
      {A : Type 0} {P E : RdmaTransport S → Type 0} {Q : A → RdmaTransport S → Type 0}
      (f : S.State → A × S.State)
      → ((c : RdmaTransport S) → P c → Q (f c.socket).0 (record c { socket = (f c.socket).1 }))
      → Triple P (on_socket S f) Q E
  unfolding on_socket
  Triple-on_socket f h = record { at = h }

  abbrev pub IsLate : RdmaTransport S → Type 0
  IsLate c = is_positive (time_remaining S c) ≡ false

  -- Why the loop ends.
  pub complete_or_IsLate :
      (n k : ℕ) (c : RdmaTransport S) (t : ℕ)
      → n ≤ k
      → t ≡ time_remaining S c
      → (ltb 0 (k - n) && is_positive t) ≡ false
      → (n ≡ k) ⊎ IsLate c
  complete_or_IsLate n k c t l e d = elim (Bool-cases (ltb 0 (k - n))) [
    | inl b ↦ inr (rw (← e) (right_false _ _ b d))
    | inr b ↦ inl (omega (arith, l, le_of_ltb-false 0 (k - n) b))
  ]
