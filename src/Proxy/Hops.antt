-- ===== src/Proxy/Hops.antt =====
-- Where a response goes: back along the via-params of the request.
use sipproxy.KeyValue.{find_param, set_param, KeyValue}
use sipproxy.KeyValue.Laws.{find-set, find-set_self, has-set, has_iff_find}
use sipproxy.Message.{Message, add_via, ServerTransport}
use sipproxy.Message.Access.{bind-ok, get_via, pop_via, mark_received, M}
use sipproxy.Message.Headers.{get-add_via, pop-add_via}
use sipproxy.Message.Ids.{get_top_via_branch}
use sipproxy.Prelude.{
  ◌>>=◌, ◌≡◌, List, [], ◌∷◌, value_or, refl, ap, ◌∙◌, if◌then◌else◌, ok, ℤ, inl, inr, false,
  Bool-cases, Result, err, is_ok, arith, pos, int_eq,
}
use sipproxy.Proxy.{hop_of_via, hop_of_top, get_next_response_hop, add_proxy_via}
use sipproxy.Text.{Bytes, codes, to_upper, str_eq}
use sipproxy.Text.Number.{atoi, itoa}
use sipproxy.Text.Number.RoundTrip.{IsInt, atoi-itoa}
use sipproxy.Via.{
  get_branch, ViaParam, Via, size, new_via, add_via_param, get_via_param, set_via_value,
  get_via_value, has_via_value, get_via_port, get_received, set_via_received, get_rport, create_via,
  set_branch, create_via_param,
}

-- The via-param that the proxy makes for a listener.
abbrev own_param : Bytes → ServerTransport → ViaParam
own_param branch t =
    set_branch (create_via_param (to_upper t.protocol) t.address t.local_port) branch

own_hop :
    (branch : Bytes) (t : ServerTransport)
    → int_eq t.local_port (pos 0) ≡ false
    → hop_of_via (own_param branch t)
      ≡ record { host = t.address; port = t.local_port; transport = to_upper t.protocol }
unfolding hop_of_via create_via_param set_branch set_via_value set_param get_received get_via_value
    get_via_port find_param str_eq
own_hop branch t h = rw h refl

own_branch : (branch : Bytes) (t : ServerTransport) → get_branch (own_param branch t) ≡ ok branch
unfolding set_branch set_via_value get_branch get_via_value create_via_param
own_branch branch t = find-set_self (codes "branch") branch []

abbrev branch_of_top : Via → M Bytes
branch_of_top w n = elim (get_via_param w 0) [ ok p ↦ (get_branch p, n) | err e ↦ (err e, n) ]

-- The Via that the proxy adds to a request sends the response back to the listener: whoever answers
-- the request by its top Via goes to the address, the port and the protocol of the listener, in capital
-- letters, and finds the branch there. Taken off again, it leaves the message as it was before the
-- proxy. The port of the listener is not 0.
pub add_proxy_via_lem :
    (branch : Bytes) (t : ServerTransport) (m : Message)
    → int_eq t.local_port (pos 0) ≡ false
    → let sent = add_proxy_via (ok branch) t m in
      (get_next_response_hop sent ≡ (
        ok (record { host = t.address; port = t.local_port; transport = to_upper t.protocol }),
        sent,
      ))
      × ((get_top_via_branch sent).0 ≡ ok branch)
      × ((pop_via sent).1 ≡ m)
unfolding add_proxy_via create_via add_via_param new_via size get_next_response_hop hop_of_top
    get_via_param get_top_via_branch create_via_param
add_proxy_via_lem branch t m h =
    let v : Via = record { params = own_param branch t ∷ [] } in
    (
      bind-ok get_via hop_of_top (add_via v m) (get-add_via v m)
          ∙ ap (λ hop. (ok hop, add_via v m)) (own_hop branch t h),
      ap (λ r. r.0) (bind-ok get_via branch_of_top (add_via v m) (get-add_via v m))
          ∙ own_branch branch t,
      ap (λ x. x.1) (pop-add_via v m (omega arith)),
    )

no_rport : (r : Result Bytes) (d : ℤ) → is_ok r ≡ false → value_or (do s ← r; atoi s) d ≡ d
no_rport (ok s) d h = cc
no_rport (err e) d h = refl

hop_received :
    (q : ViaParam) (a : Bytes) (z : ℤ)
    → get_received q ≡ ok a
    → value_or (get_rport q) (get_via_port q) ≡ z
    → hop_of_via q ≡ record { host = a; port = z; transport = q.transport }
unfolding hop_of_via
hop_received q a z e f = rw (hop_of_via, e, f) refl

module _ (addr : Bytes) (port : ℤ) (p : ViaParam) where
  kept : has_via_value (set_via_received p addr) (codes "rport") ≡ has_via_value p (codes "rport")
  unfolding has_via_value set_via_received set_via_value
  kept = has-set (codes "received") (codes "rport") addr p.params

  hop_with_rport :
      IsInt port
      → hop_of_via (set_via_value (set_via_received p addr) (codes "rport") (itoa port))
        ≡ record { host = addr; port = port; transport = p.transport }
  unfolding set_via_received set_via_value get_received get_rport get_via_value
  hop_with_rport h =
      let params : List KeyValue = set_param (codes "received") addr p.params in
      hop_received _ addr port
        (find-set (codes "rport") (codes "received") (itoa port) params
          ∙ find-set_self (codes "received") addr p.params)
        (rw (find-set_self (codes "rport") (itoa port) params, atoi-itoa port h))

  hop_without_rport :
      has_via_value p (codes "rport") ≡ false
      → hop_of_via (set_via_received p addr)
        ≡ record { host = addr; port = get_via_port p; transport = p.transport }
  unfolding set_via_received set_via_value get_received get_rport get_via_value has_via_value
      get_via_port
  hop_without_rport e =
      let params : List KeyValue = set_param (codes "received") addr p.params in
      hop_received _ addr (get_via_port p) (find-set_self (codes "received") addr p.params) (
        no_rport (find_param (codes "rport") params) (get_via_port p)
          (has_iff_find (codes "rport") params ∙ kept ∙ e))

  -- A request that came from an address and a port, an int, is answered to that address, and to
  -- that port if its via-param asked for it with `rport`; else to the port of its sent-by.
  pub hop-mark_received :
      IsInt port
      → hop_of_via (mark_received addr port p) ≡ record {
        host = addr;
        port = if has_via_value p (codes "rport") then port else get_via_port p;
        transport = p.transport;
      }
  unfolding mark_received
  hop-mark_received h = elim (Bool-cases (has_via_value p (codes "rport"))) [
    | inl e ↦ rw (kept, e) (hop_with_rport h)
    | inr e ↦ rw (kept, e) (hop_without_rport e)
  ]
