-- ===== src/Runs/Wires.antt =====
-- A transport that keeps what was sent, and has the bytes that will come.
use alba.Base.{
  ℕ, ◌≡◌, refl, sym, List, [], ◌++◌, Bool, true, Option, length, take, drop, leb, le→leb,
  if◌then◌else◌, le_bytes, length-le_bytes, length-append, take-length-append, drop-length-append,
  append-nil, arith,
}
use alba.Exec.{Exec, returns, raises, transport_error}
use alba.Client.{Transport}
use alba.Client.Exchange.{frame, Exchanges}

pub record Wire : Type 0 where
  pub sent : List ℕ
  pub coming : List ℕ
  pub open_ : Bool
  pub timeout : Option ℕ

unfoldable pub receive : ℕ → Exec Wire (List ℕ)
receive n s =
    if leb n (length s.coming)
    then (returns (take n s.coming), record s { coming = drop n s.coming })
    else (raises transport_error, s)

abbrev pub wire : Transport
wire = record {
  State = Wire;
  expires_from_now = λ timeout s. record s { timeout = timeout };
  write_exact = λ bytes s.
      if s.open_
      then (returns tt, record s { sent = s.sent ++ bytes })
      else (raises transport_error, s);
  read_exact = receive;
}

receive-append :
    (n : ℕ) (xs ys : List ℕ) (s : Wire)
    → n ≡ length xs
    → s.coming ≡ xs ++ ys
    → receive n s ≡ (returns xs, record s { coming = ys })
unfolding receive
receive-append n xs ys s e h =
    rw
      (
        e,
        h,
        le→leb (length xs) (length (xs ++ ys)) (omega (arith, length-append xs ys)),
        take-length-append xs ys,
        drop-length-append xs ys,
        receive,
      )
      refl

-- An open wire takes a request and gives the response that is coming.
pub wire-Exchanges :
    (req resp : List ℕ) (s : Wire)
    → s.open_ ≡ true
    → s.coming ≡ frame resp
    → Exchanges wire req resp s (record s { sent = s.sent ++ frame req; coming = [] })
unfolding frame
wire-Exchanges req resp s o e = record {
  sent = record s { sent = s.sent ++ frame req };
  sized = record s { sent = s.sent ++ frame req; coming = resp };
  writes = rw o refl;
  reads_size =
      receive-append 4 (le_bytes 4 (length resp)) resp _ (sym (length-le_bytes 4 (length resp))) e;
  reads = receive-append (length resp) resp [] _ refl (sym (append-nil resp));
}
