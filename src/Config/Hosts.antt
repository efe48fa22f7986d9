-- ===== src/Config/Hosts.antt =====
-- The hosts of the configuration in the resolver.
use sipproxy.Config.{HostIp, add_hosts, create_pre_config_host_resolver}
use sipproxy.Dict.{dict_get, dict_get-put}
use sipproxy.Party.RoundTrip.{named}
use sipproxy.Prelude.{
  ◌≡◌, inl, inr, List, [], ◌∷◌, ◌++◌, if◌then◌else◌, Bool-cases, ℕ, refl, sym, ap, ◌∙◌, Bool, false,
  Option, none, some, append-nil, append_assoc, Result,
}
use sipproxy.Resolver.{
  SolvedHost, HostResolver, host_or, add_host_ip, refresh, ips_or_name, get_ips,
}
use sipproxy.Text.{Bytes, str_eq}
use sipproxy.Text.Equality.{str_eq_sound}

-- The addresses that a list of the configuration gives to a name, in order.
abbrev pub configured : Bytes → List HostIp → List Bytes
configured name [] = []
configured name (h ∷ hs) =
    let rest = configured name hs in if str_eq h.name name then h.ip ∷ rest else rest

abbrev entry_of : Bytes → HostResolver → SolvedHost
entry_of name hosts = host_or (record { next_resolve_time = 0; ips = [] }) (dict_get name hosts)

abbrev with_list : SolvedHost → List Bytes → SolvedHost
with_list h ips = record h { ips = ips }

abbrev with_ips : SolvedHost → List Bytes → SolvedHost
with_ips h ips = record h { ips = h.ips ++ ips }

no_more : (h : SolvedHost) → h ≡ with_ips h []
no_more h = ap (λ (l : List Bytes). with_list h l) (sym (append-nil h.ips))

with_more : (h : SolvedHost) (a b : List Bytes) → with_ips (with_ips h a) b ≡ with_ips h (a ++ b)
with_more h a b = ap (λ (l : List Bytes). with_list h l) (append_assoc h.ips a b)

abbrev put_entry : HostIp → HostResolver → SolvedHost
put_entry h hosts = with_ips (entry_of h.name hosts) (h.ip ∷ [])

put_entry-configured :
    (name : Bytes) (h : HostIp) (hosts : HostResolver)
    → host_or
        (record { next_resolve_time = 0; ips = [] })
        (if str_eq h.name name then some (put_entry h hosts) else dict_get name hosts)
      ≡ with_ips (entry_of name hosts) (configured name (h ∷ []))
unfolding host_or
put_entry-configured name h hosts = elim (Bool-cases (str_eq h.name name)) [
  | inl e ↦
      let same : h.name ≡ name = str_eq_sound h.name name e in
      rw e (ap (λ n. with_ips (entry_of n hosts) (h.ip ∷ [])) same)
  | inr e ↦ rw e (no_more (entry_of name hosts))
]

add_host_ip-entry :
    (name : Bytes) (h : HostIp) (hosts : HostResolver)
    → entry_of name (add_host_ip h.name h.ip hosts)
      ≡ with_ips (entry_of name hosts) (configured name (h ∷ []))
unfolding add_host_ip
add_host_ip-entry name h hosts =
    ap (host_or (record { next_resolve_time = 0; ips = [] }))
      (dict_get-put h.name name (put_entry h hosts) hosts)
    ∙ put_entry-configured name h hosts

add_hosts-entry :
    (name : Bytes) (hs : List HostIp) (hosts : HostResolver)
    → entry_of name (add_hosts hs hosts) ≡ with_ips (entry_of name hosts) (configured name hs)
unfolding add_hosts
add_hosts-entry name [] hosts = no_more (entry_of name hosts)
add_hosts-entry name (h ∷ hs) hosts =
    add_hosts-entry name hs (add_host_ip h.name h.ip hosts)
    ∙ ap (λ (x : SolvedHost). with_ips x (configured name hs)) (add_host_ip-entry name h hosts)
    ∙ elim (Bool-cases (str_eq h.name name)) [
      | inl e ↦ rw e (with_more (entry_of name hosts) (h.ip ∷ []) (configured name hs))
      | inr e ↦ rw e (with_more (entry_of name hosts) [] (configured name hs))
    ]

known_entry :
    (o : Option SolvedHost) (ip : Bytes) (ips : List Bytes)
    → host_or (record { next_resolve_time = 0; ips = [] }) o
      ≡ record { next_resolve_time = 0; ips = ip ∷ ips }
    → o ≡ some (record { next_resolve_time = 0; ips = ip ∷ ips })
unfolding host_or
known_entry none ip ips h =
    let empty : [] ≡ ip ∷ ips = ap (λ (x : SolvedHost). x.ips) h in absurd (cc)
known_entry (some x) ip ips h = ap some h

-- A name of the configuration resolves, at any time and without a lookup, to the addresses that the
-- list for all proxies gives it and then those of the proxy's own list, in their order, if it has one
-- and is not itself an address.
pub get_ips-configured :
    (is_ip : Bytes → Bool) (lookup : Result (List Bytes)) (c t n : ℕ) (name ip : Bytes)
    (ips : List Bytes) (globals own : List HostIp)
    → is_ip name ≡ false
    → configured name globals ++ configured name own ≡ ip ∷ ips
    → (get_ips is_ip lookup c t n name (create_pre_config_host_resolver globals own)).0 ≡ ip ∷ ips
unfolding create_pre_config_host_resolver get_ips refresh ips_or_name
get_ips-configured is_ip lookup c t n name ip ips globals own named some_ips =
    let hosts : HostResolver = create_pre_config_host_resolver globals own in
    let entry : entry_of name hosts ≡ record { next_resolve_time = 0; ips = ip ∷ ips } =
      add_hosts-entry name own (add_hosts globals [])
      ∙ ap (λ (x : SolvedHost). with_ips x (configured name own)) (add_hosts-entry name globals [])
      ∙ ap (λ l. record { next_resolve_time = 0; ips = l }) some_ips in
    let found : dict_get name hosts ≡ some (record { next_resolve_time = 0; ips = ip ∷ ips }) =
      known_entry (dict_get name hosts) ip ips entry in
    rw (get_ips, named, found) refl
