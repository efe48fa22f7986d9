-- ===== src/Resolver.antt =====
-- The resolvers of host names, resolver.go, and the operations on lists of texts, util.go. What a
-- lookup in the DNS answers is an argument, and so is every reading of the clock, in seconds.
pub mod Overtaking
pub mod Sets
pub mod Sync
pub mod Cache
use sipproxy.Dict.{Dict, dict_get, dict_put}
use sipproxy.Message.Access.{◌>>◌}
use sipproxy.Prelude.{
  ℕ, ◌+◌, Bool, true, false, ◌&&◌, ◌||◌, Option, none, some, List, [], ◌∷◌, ◌++◌, map, reverse, ltb,
  leb, if◌then◌else◌, length, drop, Result, ok, err, ◌>>=◌,
}
use sipproxy.Text.{Bytes, codes, str_eq, starts_with, cut}

-- inStrArray
unfoldable pub in_str_array : Bytes → List Bytes → Bool
unfolding str_eq
in_str_array s [] = false
in_str_array s (t ∷ ts) = str_eq t s || in_str_array s ts

-- strArraySub
unfoldable pub str_array_sub : List Bytes → List Bytes → List Bytes
unfolding in_str_array
str_array_sub [] bs = []
str_array_sub (s ∷ ss) bs =
    let rest = str_array_sub ss bs in if in_str_array s bs then rest else s ∷ rest

-- isIPAddress, where `is_ip` says whether net.ParseIP reads the text
unfoldable pub strip_brackets : Bytes → Bytes
unfolding starts_with
strip_brackets s =
    if starts_with (codes "[") s && starts_with (codes "]") (reverse s)
    then reverse (drop 1 (reverse (drop 1 s)))
    else s

unfoldable pub is_ip_address : (Bytes → Bool) → Bytes → Bool
unfolding strip_brackets
is_ip_address is_ip s = is_ip (strip_brackets s)

-- PreConfigSolvedHost; a host of the configuration has 0 for its time and is never looked up.
pub record SolvedHost : Type 0 where
  pub next_resolve_time : ℕ
  pub ips : List Bytes

abbrev pub HostResolver : Type 0
HostResolver = Dict SolvedHost

unfoldable pub host_or : SolvedHost → Option SolvedHost → SolvedHost
host_or e none = e
host_or e (some h) = h

unfoldable pub add_host_ip : Bytes → Bytes → HostResolver → HostResolver
unfolding host_or dict_get dict_put
add_host_ip name ip hosts =
    let h = host_or (record { next_resolve_time = 0; ips = [] }) (dict_get name hosts) in
    dict_put name (record h { ips = h.ips ++ ip ∷ [] }) hosts

-- PreConfigHostResolver.doResolve, which turns an error into the name itself
unfoldable pub resolved_ips : Bytes → Result (List Bytes) → List Bytes
resolved_ips name (ok ips) = ips
resolved_ips name (err _) = name ∷ []

-- The entry is looked up again when its time has come.
unfoldable pub refresh : Bytes → Result (List Bytes) → ℕ → ℕ → SolvedHost → SolvedHost
unfolding resolved_ips
refresh name lookup test_now next_now h =
    if ltb 0 h.next_resolve_time && leb h.next_resolve_time test_now
    then record { next_resolve_time = next_now + 10; ips = resolved_ips name lookup }
    else h

unfoldable pub ips_or_name : Bytes → List Bytes → List Bytes
ips_or_name name [] = name ∷ []
ips_or_name name (ip ∷ ips) = ip ∷ ips

-- GetIps, whose error is always nil; `is_ip` says whether net.ParseIP reads a text, and `lookup` is
-- what net.LookupIP answers.
unfoldable pub get_ips :
    (Bytes → Bool)
    → Result (List Bytes)
    → ℕ
    → ℕ
    → ℕ
    → Bytes
    → HostResolver
    → List Bytes × HostResolver
unfolding host_or refresh ips_or_name dict_get dict_put
get_ips is_ip lookup new_now test_now next_now name hosts =
    if is_ip name
    then (name ∷ [], hosts)
    else (let h =
          host_or (record { next_resolve_time = new_now; ips = [] }) (dict_get name hosts) in
        let h' = refresh name lookup test_now next_now h in
        (ips_or_name name h'.ips, dict_put name h' hosts))

-- AddressWithCallback; a callback is named by a number.
pub record HostEntry : Type 0 where
  pub addrs : List Bytes
  pub failed : ℕ
  pub callbacks : List ℕ

unfoldable pub new_host_entry : HostEntry
new_host_entry = record { addrs = []; failed = 0; callbacks = [] }

-- What notifyAddressChanged is started with.
pub record Notice : Type 0 where
  pub new_addrs : List Bytes
  pub removed_addrs : List Bytes

-- The body of addressResolved for a known host: the entry, and the notification if one is started.
unfoldable pub entry_failed : HostEntry → HostEntry × Option Notice
entry_failed e =
    if ltb 3 (e.failed + 1) && ltb 0 (length e.addrs)
    then (
      record e { addrs = []; failed = 0 },
      some (record { new_addrs = []; removed_addrs = e.addrs }),
    )
    else (record e { failed = e.failed + 1 }, none)

unfoldable pub entry_changed : List Bytes → HostEntry → Option Notice
unfolding str_array_sub
entry_changed addrs e =
    let added = str_array_sub addrs e.addrs in
    let removed = str_array_sub e.addrs addrs in
    if ltb 0 (length added) || ltb 0 (length removed)
    then some (record { new_addrs = added; removed_addrs = removed })
    else none

unfoldable pub entry_resolved : Result (List Bytes) → HostEntry → HostEntry × Option Notice
unfolding entry_failed entry_changed
entry_resolved (err _) e = entry_failed e
entry_resolved (ok addrs) e = (record e { addrs = addrs; failed = 0 }, entry_changed addrs e)

-- DynamicHostResolver; `pending` are the notifications whose goroutine has not run, the oldest first.
pub record Resolver : Type 0 where
  pub stopped : Bool
  pub hosts : Dict HostEntry
  pub pending : List (Bytes × Notice)

unfoldable pub new_resolver : Resolver
new_resolver = record { stopped = false; hosts = []; pending = [] }

unfoldable pub started : Bytes → Option Notice → List (Bytes × Notice)
started hostname none = []
started hostname (some n) = (hostname, n) ∷ []

unfoldable pub known_resolved : Bytes → Result (List Bytes) → Option HostEntry → Resolver → Resolver
unfolding entry_resolved started dict_put
known_resolved hostname result none r = r
known_resolved hostname result (some e) r =
    let step = entry_resolved result e in
    record r {
      hosts = dict_put hostname step.0 r.hosts;
      pending = r.pending ++ started hostname step.1;
    }

unfoldable pub address_resolved : Bytes → Result (List Bytes) → Resolver → Resolver
unfolding known_resolved dict_get
address_resolved hostname result r = known_resolved hostname result (dict_get hostname r.hosts) r

-- A call of a callback.
pub record Call : Type 0 where
  pub callback : ℕ
  pub hostname : Bytes
  pub notice : Notice

unfoldable pub notify_address_changed : Bytes → Option HostEntry → Notice → List Call
notify_address_changed hostname none n = []
notify_address_changed hostname (some e) n =
    map (λ c. record { callback = c; hostname = hostname; notice = n }) e.callbacks

-- The second half of ResolveHost for a new host: an empty or failed lookup changes nothing.
unfoldable pub first_resolved : Bytes → Result (List Bytes) → Resolver → Resolver
unfolding address_resolved
first_resolved hostname (err _) r = r
first_resolved hostname (ok []) r = r
first_resolved hostname (ok (a ∷ ss)) r = address_resolved hostname (ok (a ∷ ss)) r

unfoldable pub resolve_entry :
    Bytes → ℕ → Result (List Bytes) → Option HostEntry → Resolver → Resolver × List Call
unfolding first_resolved dict_put new_host_entry
resolve_entry hostname callback lookup none r = (
  first_resolved hostname lookup (record r {
    hosts = dict_put hostname (record new_host_entry { callbacks = callback ∷ [] }) r.hosts;
  }),
  [],
)
resolve_entry hostname callback lookup (some e) r = (
  record r {
    hosts = dict_put hostname (record e { callbacks = e.callbacks ++ callback ∷ [] }) r.hosts;
  },
  record {
    callback = callback;
    hostname = hostname;
    notice = record { new_addrs = e.addrs; removed_addrs = [] };
  }
      ∷ [],
)

-- ResolveHost: the resolver, and the calls that it makes itself.
unfoldable pub resolve_host : Bytes → ℕ → Result (List Bytes) → Resolver → Resolver × List Call
unfolding resolve_entry dict_get
resolve_host hostname callback lookup r =
    resolve_entry hostname callback lookup (dict_get hostname r.hosts) r

unfoldable pub get_hostnames : Resolver → List Bytes
get_hostnames r = map (λ e. e.0) r.hosts

unfoldable pub get_addrs_of_host : Bytes → Resolver → List Bytes
unfolding dict_get
get_addrs_of_host hostname r = elim (dict_get hostname r.hosts) [ none ↦ [] | some e ↦ e.addrs ]

unfoldable pub stop : Resolver → Resolver
stop r = record r { stopped = true }

-- One round of periodicalResolve over the names that it read, with what each lookup answers.
unfoldable pub resolve_all : (Bytes → Result (List Bytes)) → List Bytes → Resolver → Resolver
unfolding address_resolved
resolve_all lookup [] r = r
resolve_all lookup (name ∷ names) r =
    resolve_all lookup names (address_resolved name (lookup name) r)

unfoldable pub periodical_round : (Bytes → Result (List Bytes)) → Resolver → Resolver
unfolding resolve_all get_hostnames
periodical_round lookup r = if r.stopped then r else resolve_all lookup (get_hostnames r) r

-- DynamicHostResolver.doResolve: the bracketed text of every address that LookupIP answers
unfoldable pub bracketed : Bytes → Bytes
unfolding cut
bracketed s = elim (cut b':' s) [ none ↦ s | some _ ↦ b'[' ∷ (s ++ b']' ∷ []) ]

unfoldable pub do_resolve : Result (List Bytes) → Result (List Bytes)
unfolding bracketed
do_resolve lookup = do ips ← lookup; ok (map bracketed ips)
