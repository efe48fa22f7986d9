-- ===== src/Resolver/Overtaking.antt =====
-- What goes wrong where one notification overtakes another that names the same address: the
-- goroutines that addressResolved starts have no order.
use sipproxy.Prelude.{
  ◌≡◌, ap, ◌∙◌, Bool, true, false, ◌||◌, List, [], ◌++◌, arith, ltb, length, Option, ok, inl, inr,
  Bool-cases,
}
use sipproxy.Resolver.{
  in_str_array, str_array_sub, HostEntry, Notice, entry_changed, entry_resolved,
}
use sipproxy.Resolver.Sets.{in_str_array-sub}
use sipproxy.Resolver.Sync.{informed_all, queued, informed_all-append, in_informed, empty_length}
use sipproxy.Text.{Bytes}

-- A lookup that brings some addresses has at most one notification, the differences.
first_told :
    (x : Bytes) (addrs : List Bytes) (e : HostEntry) (known : List Bytes)
    → in_str_array x e.addrs ≡ false
    → in_str_array x addrs ≡ true
    → in_str_array x (informed_all (queued (entry_resolved (ok addrs) e).1) known) ≡ true
unfolding entry_resolved entry_changed queued informed_all in_str_array
first_told x addrs e known old new =
    let added : List Bytes = str_array_sub addrs e.addrs in
    let removed : List Bytes = str_array_sub e.addrs addrs in
    let difference : in_str_array x added ≡ true =
      ground (arith, in_str_array-sub x addrs e.addrs) in
    elim (Bool-cases (ltb 0 (length added) || ltb 0 (length removed))) [
      | inl c ↦
          rw (entry_changed, c)
            (ground (
              arith,
              old,
              new,
              in_informed x (record { new_addrs = added; removed_addrs = removed }) known,
              in_str_array-sub x addrs e.addrs,
              in_str_array-sub x e.addrs addrs,
            ))
      | inr c ↦
          let empty : added ≡ [] = empty_length added (ground (arith, c)) in
          let missing : ◌≡◌ {A = Bool} false true = rw empty at difference in cc
    ]

-- An address that one lookup brings and the next takes back stays known, though the resolver does
-- not hold it, where the second notification overtakes the first; whatever the callback knew.
pub overtaken_notice :
    (x : Bytes) (first second : List Bytes) (e : HostEntry) (known : List Bytes)
    → in_str_array x e.addrs ≡ false
    → in_str_array x first ≡ true
    → in_str_array x second ≡ false
    → let after = entry_resolved (ok first) e in
      let last = entry_resolved (ok second) after.0 in
      (in_str_array x (informed_all (queued last.1 ++ queued after.1) known) ≡ true)
      × (in_str_array x last.0.addrs ≡ false)
unfolding entry_resolved entry_changed
overtaken_notice x first second e known old new gone =
    let after : HostEntry × Option Notice = entry_resolved (ok first) e in
    let last : HostEntry × Option Notice = entry_resolved (ok second) after.0 in
    (
      ap (in_str_array x) (informed_all-append (queued last.1) (queued after.1) known)
          ∙ first_told x first e (informed_all (queued last.1) known) old new,
      gone,
    )
