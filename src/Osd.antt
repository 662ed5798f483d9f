-- ===== src/Osd.antt =====
-- `OsdInfo` and `OsdCapabilities` of cpp/include/osd_info.h, and their readers in
-- cpp/src/lib/osd_info.cc.
pub mod RoundTrip
use alba.Base.{
  ℕ, zero, suc, ◌+◌, ◌-◌, ◌%◌, List, [], ◌∷◌, Bool, true, false, Option, none, some, ◌==◌, ltb,
  if◌then◌else◌, u32,
}
use alba.Llio.Message.{Message, message, from_string as buffer_of}
use alba.Llio.Reader.{
  Reader, deserialisation_exception, throw, pure, ◌>>=◌, ◌>>◌, reading, skips, tell,
}
use alba.Llio.From.{from_u8, from_u32, from_bool, from_string, from_vector}

-- The members that an osd of another kind leaves unset are `none`.
pub record OsdInfo : Type 0 where
  pub kind_asd : Bool
  pub long_id : List ℕ
  pub ips : List (List ℕ)
  pub port : Option ℕ
  pub use_tls : Option Bool
  pub use_rdma : Option Bool
  pub node_id : List ℕ

abbrev pub other_kind : OsdInfo
other_kind = record {
  kind_asd = false;
  long_id = [];
  ips = [];
  port = none;
  use_tls = none;
  use_rdma = none;
  node_id = [];
}

unfoldable pub from_asd : Reader OsdInfo
from_asd = do
  ips ← from_vector [] from_string
  port ← from_u32
  use_tls ← from_bool
  use_rdma ← from_bool
  long_id ← from_string
  node_id ← from_string
  pure (record {
    kind_asd = true;
    long_id = long_id;
    ips = ips;
    port = some port;
    use_tls = some use_tls;
    use_rdma = some use_rdma;
    node_id = node_id;
  })

unfoldable pub from_kind : Reader OsdInfo
from_kind = do kind ← from_u8; if kind == 1 then from_asd else pure other_kind

unfoldable pub from_osd_info : Reader OsdInfo
from_osd_info = do
  version ← from_u8
  if version == 3
      then (do inner_s ← from_string; reading (message (buffer_of inner_s)) from_kind)
      else throw deserialisation_exception

pub record OsdCapabilities : Type 0 where
  pub rora_port : Option ℕ
  pub rora_transport : Option (List ℕ)
  pub rora_ips : Option (List (List ℕ))

abbrev pub no_capabilities : OsdCapabilities
no_capabilities = record { rora_port = none; rora_transport = none; rora_ips = none }

unfoldable pub capability_length : ℕ → Reader ℕ
capability_length version =
    if version == 1
    then pure 0
    else if version == 2
    then from_u32
    else throw deserialisation_exception

-- The default of the switch, into which case 4 falls through.
unfoldable pub need_length : ℕ → OsdCapabilities → Reader OsdCapabilities
need_length length caps = if length == 0 then throw deserialisation_exception else pure caps

unfoldable pub from_address : ℕ → OsdCapabilities → Reader OsdCapabilities
from_address length caps = do
  rora_ips ← from_vector [] from_string
  port ← from_u32
  transport ← from_string
  need_length length
      (record { rora_port = some port; rora_transport = some transport; rora_ips = some rora_ips })

unfoldable pub from_tag : ℕ → ℕ → OsdCapabilities → Reader OsdCapabilities
from_tag tag length caps =
    if tag == 1
    then pure caps
    else if tag == 2
    then pure caps
    else if tag == 3
    then (do port ← from_u32; pure (record caps { rora_port = some port }))
    else if tag == 4
    then from_address length caps
    else need_length length caps

-- What is left of a capability is skipped, without a look at the end of the message.
unfoldable pub skip_rest : ℕ → ℕ → ℕ → Reader (Unit {0})
skip_rest length pos0 pos1 =
    let actual_length = (pos1 + (u32 - pos0)) % u32 in
    if length == 0
    then pure tt
    else if ltb length actual_length
    then throw deserialisation_exception
    else skips (length - actual_length)

unfoldable pub from_capability : OsdCapabilities → Reader OsdCapabilities
from_capability caps = do
  version ← from_u8
  length ← capability_length version
  pos0 ← tell
  tag ← from_u8
  caps' ← from_tag tag length caps
  pos1 ← tell
  _ ← skip_rest length pos0 pos1
  pure caps'

unfoldable pub capabilities_loop : ℕ → OsdCapabilities → Reader OsdCapabilities
capabilities_loop zero caps = pure caps
capabilities_loop (suc n) caps = do caps' ← from_capability caps; capabilities_loop n caps'

unfoldable pub from_osd_capabilities : Reader OsdCapabilities
from_osd_capabilities = do size ← from_u32; capabilities_loop size no_capabilities
