-- ===== src/Message/Ids.antt =====
-- The identifiers that message.go, dialog.go and transaction.go make of a message.
use sipproxy.Address.{AddrSpec, sip_uri, print_addr_spec}
use sipproxy.Message.{Message, get_header_value, text_of}
use sipproxy.Message.Access.{
  ◌>>=◌, pure, lift, gets, M, get_from, get_to, get_via, get_cseq, get_method,
}
use sipproxy.Party.{get_addr_spec, get_tag}
use sipproxy.Prelude.{
  false, ◌||◌, [], ◌∷◌, ◌++◌, leb, if◌then◌else◌, no_such_header, no_transaction, Result, ok, err,
  value_or,
}
use sipproxy.SipUri.{print_sip_uri_with}
use sipproxy.Text.{Bytes, codes, str_eq, str_lt}
use sipproxy.Via.{size, get_via_param, get_branch, get_sent_by, sent_by}

unfoldable pub get_call_id : Message → Result Bytes
unfolding get_header_value text_of
get_call_id m = elim (get_header_value m (codes "Call-ID")) [ ok v ↦ text_of v | err e ↦ err e ]

-- Dialog.String
unfoldable pub print_dialog : Bytes → Bytes → Bytes → Bytes
print_dialog call_id local remote = call_id ++ (b'-' ∷ (local ++ (b'-' ∷ remote)))

unfoldable pub get_dialog_addr : AddrSpec → Bytes
unfolding print_sip_uri_with print_addr_spec
get_dialog_addr (sip_uri u) = print_sip_uri_with false false u
get_dialog_addr a = print_addr_spec a

unfoldable pub tagged : Bytes → Bytes → Bytes
tagged tag addr = tag ++ (b'-' ∷ addr)

-- The two parties in the order of their addresses.
unfoldable pub dialog_id : Bytes → Bytes → Bytes → Bytes → Bytes → Bytes
unfolding print_dialog tagged str_lt
dialog_id call_id from_tag from_addr to_tag to_addr =
    if str_lt from_addr to_addr
    then print_dialog call_id (tagged from_tag from_addr) (tagged to_tag to_addr)
    else print_dialog call_id (tagged to_tag to_addr) (tagged from_tag from_addr)

unfoldable pub session_id : Bytes → Bytes → Bytes → Bytes
unfolding print_dialog str_lt
session_id call_id from_addr to_addr =
    if str_lt from_addr to_addr
    then print_dialog call_id from_addr to_addr
    else print_dialog call_id to_addr from_addr

unfoldable pub get_dialog : M Bytes
unfolding get_call_id get_from get_to get_tag get_addr_spec get_dialog_addr dialog_id
get_dialog = do
  call_id ← gets get_call_id
  from ← get_from
  to ← get_to
  from_addr ← lift (get_addr_spec from)
  to_addr ← lift (get_addr_spec to)
  pure (
      dialog_id call_id (value_or (get_tag from) []) (get_dialog_addr from_addr)
        (value_or (get_tag to) []) (get_dialog_addr to_addr))

unfoldable pub get_session_id : M Bytes
unfolding get_call_id get_from get_to get_addr_spec get_dialog_addr session_id
get_session_id = do
  call_id ← gets get_call_id
  from ← get_from
  to ← get_to
  from_addr ← lift (get_addr_spec from)
  to_addr ← lift (get_addr_spec to)
  pure (session_id call_id (get_dialog_addr from_addr) (get_dialog_addr to_addr))

unfoldable pub get_top_via_branch : M Bytes
unfolding get_via get_via_param get_branch
get_top_via_branch = do v ← get_via; p ← lift (get_via_param v 0); lift (get_branch p)

unfoldable pub get_top_via_sent_by : M Bytes
unfolding get_via size get_via_param get_sent_by
get_top_via_sent_by = do
  v ← get_via
  if leb (size v) 0
      then lift (err no_such_header)
      else (do p ← lift (get_via_param v 0); pure (get_sent_by p))

-- "%s-%s"
unfoldable pub client_transaction : Bytes → Bytes → Bytes
client_transaction method branch = method ++ (b'-' ∷ branch)

unfoldable pub get_client_transaction : M Bytes
unfolding get_cseq get_top_via_branch client_transaction str_eq
get_client_transaction = do
  c ← get_cseq
  if str_eq c.method (codes "ACK")
      then lift (err no_transaction)
      else (do branch ← get_top_via_branch; pure (client_transaction c.method branch))

unfoldable pub server_method : Bytes → Bytes
unfolding str_eq
server_method method =
    if str_eq method (codes "CANCEL") || str_eq method (codes "ACK") then codes "INVITE" else method

unfoldable pub server_transaction : Bytes → Bytes → Bytes → Bytes
unfolding server_method
server_transaction method sent_by branch =
    server_method method ++ (b'-' ∷ (sent_by ++ (b'-' ∷ branch)))

unfoldable pub get_server_transaction : M Bytes
unfolding get_top_via_branch get_top_via_sent_by get_method server_transaction
get_server_transaction = do
  branch ← get_top_via_branch
  sent_by ← get_top_via_sent_by
  method ← get_method
  pure (server_transaction method sent_by branch)
