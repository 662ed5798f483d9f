-- ===== src/Asd/Pool.antt =====
-- `ConnectionPool` of cpp/src/lib/asd_access.cc, for connections of any type. Every operation that
-- takes the lock is one step. A time is a number of nanoseconds; the counter is not bounded.
use alba.Base.{
  ℕ, suc, ◌-◌, ◌/◌, ◌^◌, List, [], ◌∷◌, Bool, ◌&&◌, Option, none, some, ltb, leb, length, take,
  reverse, if◌then◌else◌,
}

abbrev pub second : ℕ
second = 10 ^ 9

abbrev pub max_failures : ℕ
max_failures = 15

abbrev pub penalty : ℕ
penalty = 120

pub record Pool (C : Type 0) : Type 0 where
  pub connections : List C
  pub capacity : ℕ
  pub fast_path_failures : ℕ
  pub failure_time : ℕ

module _ {C : Type 0} where
  unfoldable pub new_pool : ℕ → Pool C
  new_pool capacity = record {
    connections = [];
    capacity = capacity;
    fast_path_failures = 0;
    failure_time = 0;
  }

  -- The count is an int, which overflows after 2^31 failures in a row.
  unfoldable pub report_failure : ℕ → Pool C → Pool C
  report_failure now p = record p {
    failure_time = now;
    fast_path_failures = suc p.fast_path_failures;
  }

  -- The connection that comes back, or the null pointer.
  unfoldable pub release_connection : ℕ → Option C → Pool C → Pool C
  release_connection now (some conn) p =
      if ltb (length p.connections) p.capacity
      then record p { fast_path_failures = 0; connections = conn ∷ p.connections }
      else record p { fast_path_failures = 0 }
  release_connection now none p = report_failure now p

  unfoldable pub is_disqualified : ℕ → Pool C → Bool
  is_disqualified now p =
      leb max_failures p.fast_path_failures && ltb ((now - p.failure_time) / second) penalty

  unfoldable pub pop : List C → Option C × List C
  pop [] = (none, [])
  pop (c ∷ conns) = (some c, conns)

  -- `make_one_` in its try block: `made` is the connection, or nothing after an exception.
  unfoldable pub or_make_one : Option C → Option C → Option C
  or_make_one (some conn) made = some conn
  or_make_one none made = made

  unfoldable pub get_connection : ℕ → Option C → Pool C → Option C × Pool C
  get_connection now made p =
      let (conn, conns) = pop p.connections in
      if is_disqualified now p
      then (none, p)
      else (or_make_one conn made, record p { connections = conns })

  -- `capacity(cap)`: connections from the front are moved over to the front of another list.
  unfoldable pub set_capacity : ℕ → Pool C → Pool C
  set_capacity cap p =
      if ltb cap (length p.connections)
      then record p { capacity = cap; connections = reverse (take cap p.connections) }
      else record p { capacity = cap }
