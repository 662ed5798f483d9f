-- ===== src/Osd/RoundTrip.antt =====
-- The description of an asd is read back from inside its string.
use alba.Base.{
  ℕ, ◌<◌, ◌≤◌, ◌^◌, ◌≡◌, ◌∙◌, List, [], ◌++◌, Bool, some, length, All, u32, le_bytes, arith,
}
use alba.Llio.Message.{message, message-Ahead, advance, from_string as buffer_of}
use alba.Llio.Reader.{ok, pure, reading-ok}
use alba.Llio.Reads.{Reads, Reads-pure, Reads-bind, Reads-bind_nil}
use alba.Llio.Layout.{bool_bytes, string_bytes, vector_bytes}
use alba.Llio.RoundTrip.{
  Reads-from_u8, Reads-from_u32, Reads-from_bool, Reads-from_string, Reads-from_vector,
}
use alba.Osd.{OsdInfo, from_asd, from_kind, from_osd_info}

-- An asd by its members.
pub record Asd : Type 0 where
  pub ips : List (List ℕ)
  pub port : ℕ
  pub use_tls : Bool
  pub use_rdma : Bool
  pub long_id : List ℕ
  pub node_id : List ℕ

abbrev pub info_of : Asd → OsdInfo
info_of a = record {
  kind_asd = Bool.true;
  long_id = a.long_id;
  ips = a.ips;
  port = some a.port;
  use_tls = some a.use_tls;
  use_rdma = some a.use_rdma;
  node_id = a.node_id;
}

-- What follows the node id is not looked at.
unfoldable pub asd_bytes : Asd → List ℕ
asd_bytes a =
    le_bytes 1 1
    ++ (vector_bytes string_bytes a.ips
        ++ (le_bytes 4 a.port
            ++ (bool_bytes a.use_tls
                ++ (bool_bytes a.use_rdma ++ (string_bytes a.long_id ++ string_bytes a.node_id)))))

abbrev pub IsText : List ℕ → Type 0
IsText s = length s < u32

pub record IsAsd (a : Asd) : Type 0 where
  pub ips : All IsText a.ips
  pub ip_count : length a.ips ≤ 2 ^ 31
  pub port : a.port < u32
  pub long_id : IsText a.long_id
  pub node_id : IsText a.node_id

Reads-from_kind : (a : Asd) → IsAsd a → Reads from_kind (asd_bytes a) (info_of a)
unfolding from_kind from_asd asd_bytes
Reads-from_kind a v = Reads-bind _ (Reads-from_u8 1 (omega arith)) (
    Reads-bind _ (Reads-from_vector {P = IsText} Reads-from_string [] a.ips v.ips v.ip_count) (
      Reads-bind _ (Reads-from_u32 a.port v.port) (
        Reads-bind _ (Reads-from_bool a.use_tls) (
          Reads-bind _ (Reads-from_bool a.use_rdma) (
            Reads-bind _ (Reads-from_string a.long_id v.long_id) (
              Reads-bind_nil _ (info_of a) (Reads-from_string a.node_id v.node_id)
                (Reads-pure (info_of a))))))))

-- A description of an asd, with whatever a later writer put behind its node id, is read back, and the
-- reader stands behind the whole of it.
pub Reads-from_osd_info :
    (a : Asd) (extra : List ℕ)
    → IsAsd a
    → length (asd_bytes a ++ extra) < 2 ^ 31
    → Reads from_osd_info (le_bytes 1 3 ++ string_bytes (asd_bytes a ++ extra)) (info_of a)
unfolding from_osd_info pure
Reads-from_osd_info a extra v n = Reads-bind _ (Reads-from_u8 3 (omega arith)) (
    Reads-bind_nil _ (info_of a) (Reads-from_string (asd_bytes a ++ extra) (omega (arith, n)))
      (record {
        at = λ m ys h.
            let stays : ok (info_of a) m ≡ ok (info_of a) (advance 0 m) =
              (Reads-pure (info_of a)).at m ys h in
            reading-ok from_kind (message (buffer_of (asd_bytes a ++ extra))) m (
              (Reads-from_kind a v).at (message (buffer_of (asd_bytes a ++ extra))) extra
                (message-Ahead (asd_bytes a ++ extra) n))
            ∙ stays;
      }))
