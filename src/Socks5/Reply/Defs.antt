-- ===== src/Socks5/Reply/Defs.antt =====
-- src/socks5/mod.rs: `ProxyError`, `map_reply` and the bytes of a reply.
use Prim.Native.String.{String}
use newghost.Prelude.{ℕ, Option, none, some, List, [], ◌∷◌}
use newghost.Session.Selector.{TransportSelectError}

-- `std::io::ErrorKind`, as far as the code tells the kinds apart.
pub data ErrorKind : Type 0 where
  connection_refused timed_out addr_not_available network_unreachable other : ErrorKind

-- The texts with which the code builds `TransportFailed`; a selection error is rendered as it is.
pub data Failure : Type 0 where
  session_not_found session_not_accepting_new_streams request_timeout_exceeded : Failure
  selection : TransportSelectError → Failure

pub data ProxyError : Type 0 where
  intent_queue_full session_limit_reached : ProxyError
  transport_failed : Failure → ProxyError
  egress_denied : String → ProxyError
  target_unreachable pump_failed : ErrorKind → ProxyError
  cancelled : ProxyError

pub data ErrorCategory : Type 0 where
  infrastructure policy target post_reply : ErrorCategory

pub data Socks5Reply : Type 0 where
  succeeded general_failure not_allowed_by_ruleset : Socks5Reply
  network_unreachable host_unreachable connection_refused : Socks5Reply
  command_not_supported address_type_not_supported : Socks5Reply

unfoldable pub map_target_error : ErrorKind → Socks5Reply
map_target_error ErrorKind.connection_refused = Socks5Reply.connection_refused
map_target_error timed_out = host_unreachable
map_target_error addr_not_available = host_unreachable
map_target_error ErrorKind.network_unreachable = Socks5Reply.network_unreachable
map_target_error other = general_failure

unfoldable pub map_reply : ProxyError → Option Socks5Reply
unfolding map_target_error
map_reply intent_queue_full = some general_failure
map_reply session_limit_reached = some general_failure
map_reply (transport_failed why) = some general_failure
map_reply (egress_denied why) = some not_allowed_by_ruleset
map_reply (target_unreachable e) = some (map_target_error e)
map_reply (pump_failed e) = none
map_reply cancelled = some general_failure

unfoldable pub category : ProxyError → ErrorCategory
category intent_queue_full = infrastructure
category session_limit_reached = infrastructure
category (transport_failed why) = infrastructure
category (egress_denied why) = policy
category (target_unreachable e) = target
category (pump_failed e) = post_reply
category cancelled = infrastructure

-- `reply as u8`
unfoldable pub reply_code : Socks5Reply → ℕ
reply_code succeeded = 0x00
reply_code general_failure = 0x01
reply_code not_allowed_by_ruleset = 0x02
reply_code Socks5Reply.network_unreachable = 0x03
reply_code host_unreachable = 0x04
reply_code Socks5Reply.connection_refused = 0x05
reply_code command_not_supported = 0x07
reply_code address_type_not_supported = 0x08

-- The bytes that `send_reply` writes: the bound address is always 0.0.0.0:0.
unfoldable pub send_reply : Socks5Reply → List ℕ
unfolding reply_code
send_reply reply =
    0x05 ∷ reply_code reply ∷ 0x00 ∷ 0x01 ∷ 0x00 ∷ 0x00 ∷ 0x00 ∷ 0x00 ∷ 0x00 ∷ 0x00 ∷ []
