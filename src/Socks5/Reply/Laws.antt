-- ===== src/Socks5/Reply/Laws.antt =====
-- What the reply mapping of src/socks5/mod.rs guarantees.
use newghost.Prelude.{◌≡◌, ◌≢◌, ◌↔◌, arith, none, some}
use newghost.Socks5.Reply.Defs.{
  ProxyError, post_reply, policy, Socks5Reply, succeeded, not_allowed_by_ruleset, map_target_error,
  map_reply, category, send_reply,
}

-- An error gets no reply exactly when it comes after the success reply, no error is answered with
-- success, and the reply `not allowed by ruleset` means exactly that a policy denied the request.
pub map_reply-category :
    (e : ProxyError)
    → ((map_reply e ≡ none) ↔ (category e ≡ post_reply))
      × (map_reply e ≢ some succeeded)
      × ((map_reply e ≡ some not_allowed_by_ruleset) ↔ (category e ≡ policy))
unfolding map_reply category map_target_error
map_reply-category e = ground arith

-- Two different replies differ on the wire.
pub send_reply-injective : (a b : Socks5Reply) → send_reply a ≡ send_reply b → a ≡ b
unfolding send_reply
send_reply-injective a b h = ground arith
