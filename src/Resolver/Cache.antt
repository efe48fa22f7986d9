-- ===== src/Resolver/Cache.antt =====
-- How long a lookup of the configured resolver stands, and when a host is given up.
use sipproxy.Dict.{dict_get, dict_put, dict_get-put}
use sipproxy.Party.RoundTrip.{named}
use sipproxy.Prelude.{
  ℕ, zero, suc, ◌+◌, ◌≤◌, ◌<◌, ◌≡◌, refl, ap, ◌∙◌, ◌≢◌, Bool, true, false, ◌&&◌, none, some, List,
  [], ◌∷◌, ◌++◌, arith, ltb, leb, length, no_address, Result, err,
}
use sipproxy.Resolver.{
  SolvedHost, HostResolver, host_or, resolved_ips, refresh, ips_or_name, get_ips, HostEntry, Notice,
  entry_failed, entry_resolved,
}
use sipproxy.Resolver.Sync.{queued}
use sipproxy.Text.{Bytes}
use sipproxy.Text.Equality.{str_eq_refl}

refresh_due :
    (name : Bytes) (lookup : Result (List Bytes)) (test_now next_now : ℕ) (h : SolvedHost)
    → 0 < h.next_resolve_time
    → h.next_resolve_time ≤ test_now
    → refresh name lookup test_now next_now h
      ≡ record { next_resolve_time = next_now + 10; ips = resolved_ips name lookup }
unfolding refresh
refresh_due name lookup test_now next_now h p q =
    let due : (ltb 0 h.next_resolve_time && leb h.next_resolve_time test_now) ≡ true =
      ground (arith, p, q) in
    rw due refl

refresh_rests :
    (name : Bytes) (lookup : Result (List Bytes)) (test_now next_now : ℕ) (h : SolvedHost)
    → test_now < h.next_resolve_time
    → refresh name lookup test_now next_now h ≡ h
unfolding refresh
refresh_rests name lookup test_now next_now h p =
    let rests : (ltb 0 h.next_resolve_time && leb h.next_resolve_time test_now) ≡ false =
      ground (arith, p) in
    rw rests refl

get_ips-known :
    (is_ip : Bytes → Bool) (lookup : Result (List Bytes)) (c t n : ℕ) (name : Bytes)
    (hosts : HostResolver) (h : SolvedHost)
    → is_ip name ≡ false
    → dict_get name hosts ≡ some h
    → get_ips is_ip lookup c t n name hosts ≡ (
      ips_or_name name (refresh name lookup t n h).ips,
      dict_put name (refresh name lookup t n h) hosts,
    )
unfolding get_ips host_or
get_ips-known is_ip lookup c t n name hosts h named e = rw (get_ips, named, e) refl

get_ips-new :
    (is_ip : Bytes → Bool) (lookup : Result (List Bytes)) (c t n : ℕ) (name : Bytes)
    (hosts : HostResolver)
    → is_ip name ≡ false
    → dict_get name hosts ≡ none
    → 0 < c
    → c ≤ t
    → get_ips is_ip lookup c t n name hosts ≡ (
      ips_or_name name (resolved_ips name lookup),
      dict_put name (record { next_resolve_time = n + 10; ips = resolved_ips name lookup }) hosts,
    )
unfolding get_ips host_or
get_ips-new is_ip lookup c t n name hosts named e p q =
    rw (get_ips, named, e)
      (ap (λ h. (ips_or_name name h.ips, dict_put name h hosts))
        (refresh_due name lookup t n (record { next_resolve_time = c; ips = [] }) p q))

-- A name that is no address and is not in the table is looked up, and the answer stands for ten
-- seconds: a request for the name within them answers the same, whatever a lookup would answer then.
pub get_ips-cached :
    (is_ip : Bytes → Bool) (lookup other : Result (List Bytes)) (c t n c_2 t_2 n_2 : ℕ)
    (name : Bytes) (hosts : HostResolver)
    → is_ip name ≡ false
    → dict_get name hosts ≡ none
    → 0 < c
    → c ≤ t
    → t_2 < n + 10
    → (get_ips is_ip other c_2 t_2 n_2 name (get_ips is_ip lookup c t n name hosts).1).0
      ≡ ips_or_name name (resolved_ips name lookup)
get_ips-cached is_ip lookup other c t n c_2 t_2 n_2 name hosts named e p q r =
    let h : SolvedHost = record { next_resolve_time = n + 10; ips = resolved_ips name lookup } in
    let stored : dict_get name (dict_put name h hosts) ≡ some h =
      dict_get-put name name h hosts ∙ rw (str_eq_refl name) refl in
    ap (λ x. (get_ips is_ip other c_2 t_2 n_2 name x.1).0)
      (get_ips-new is_ip lookup c t n name hosts named e p q)
    ∙ ap (λ x. x.0)
        (get_ips-known is_ip other c_2 t_2 n_2 name (dict_put name h hosts) h named stored)
    ∙ ap (λ g. ips_or_name name g.ips) (refresh_rests name other t_2 n_2 h r)

-- Some lookups that fail one after another, and the notifications that they start.
unfoldable pub fail_times : ℕ → HostEntry → HostEntry × List Notice
unfolding entry_resolved queued
fail_times zero e = (e, [])
fail_times (suc n) e =
    let rest = fail_times n e in
    let last = entry_resolved (err no_address) rest.0 in (last.0, rest.1 ++ queued last.1)

-- The first failures only count.
fail_times_kept :
    (n : ℕ) (e : HostEntry)
    → e.failed + n ≤ 3
    → fail_times n e ≡ (record e { failed = e.failed + n }, [])
unfolding fail_times entry_resolved entry_failed queued
fail_times_kept zero e h =
    let same : e.failed ≡ e.failed + 0 = omega arith in ap (λ f. (record e { failed = f }, [])) same
fail_times_kept (suc n) e h =
    let few : (ltb 3 (e.failed + n + 1) && ltb 0 (length e.addrs)) ≡ false = ground (arith, h) in
    let count : e.failed + n + 1 ≡ e.failed + suc n = omega arith in
    rw (fail_times_kept n e (omega (arith, h)), few) (ap (λ f. (record e { failed = f }, [])) count)

length-positive : (xs : List Bytes) → xs ≢ [] → 0 < length xs
length-positive [] h = absurd (h refl)
length-positive (x ∷ xs) h = omega arith

-- A host whose lookups fail keeps its addresses, and nothing is notified, until the failures in a row
-- are more than three; with the fourth its addresses are dropped, a single notification removes them
-- all, and the count starts again.
pub fail_times_lem :
    (n : ℕ) (e : HostEntry)
    → e.failed + n ≡ 3
    → e.addrs ≢ []
    → (fail_times n e ≡ (record e { failed = 3 }, []))
      × (fail_times (suc n) e ≡ (
        record e { addrs = []; failed = 0 },
        record { new_addrs = []; removed_addrs = e.addrs } ∷ [],
      ))
unfolding fail_times entry_resolved entry_failed queued
fail_times_lem n e h some_addrs =
    let before : fail_times n e ≡ (record e { failed = 3 }, []) =
      fail_times_kept n e (omega (arith, h)) ∙ ap (λ f. (record e { failed = f }, [])) h in
    let positive : 0 < length e.addrs = length-positive e.addrs some_addrs in
    let over : ltb 0 (length e.addrs) ≡ true = ground (arith, positive) in
    (before, rw (before, over) refl)
