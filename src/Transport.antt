-- ===== src/Transport.antt =====
-- src/transport/stream.rs and src/transport/adapter_contract.rs: what an adapter is asked for and
-- what it returns. A stream is an opaque value, known by a number.
use Prim.Native.String.{String}
use newghost.Prelude.{ℕ}

pub data TransportKind : Type 0 where
  wss iroh_direct iroh_relay : TransportKind

pub record ResolvedStream : Type 0 where
  pub stream : ℕ
  pub transport_kind : TransportKind

pub record TransportRequest : Type 0 where
  pub peer_label : String
  pub target_host : String
  pub target_port : ℕ
