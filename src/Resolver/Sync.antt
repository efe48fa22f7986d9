-- ===== src/Resolver/Sync.antt =====
-- What the notifications tell: at any time the notifications that are still to be delivered, in the
-- order in which they were started, lead from what the callbacks know to what the resolver holds.
-- addressResolved starts a goroutine for each, so one may overtake another. That is harmless where
-- the two name no address in common, and does harm where the older one adds what the newer removes.
use sipproxy.Prelude.{
  ◌≡◌, refl, ap, ◌∙◌, false, not, ◌&&◌, ◌||◌, Option, none, some, List, [], ◌∷◌, ◌++◌, arith, ltb,
  length, Result, ok, err, ◌+◌, sym, inl, inr, Bool-cases, Bool, true, All,
}
use sipproxy.Resolver.{
  in_str_array, str_array_sub, HostEntry, Notice, entry_failed, entry_changed, entry_resolved,
}
use sipproxy.Resolver.Sets.{in_str_array-sub, in_str_array-append, SameTexts}
use sipproxy.Text.{Bytes}

-- What a callback knows after a notification: hostIPChanged adds the new addresses and then removes
-- the others.
unfoldable pub informed : Notice → List Bytes → List Bytes
unfolding str_array_sub
informed n known = str_array_sub (known ++ n.new_addrs) n.removed_addrs

unfoldable pub informed_all : List Notice → List Bytes → List Bytes
unfolding informed
informed_all [] known = known
informed_all (n ∷ ns) known = informed_all ns (informed n known)

-- One host with a callback: its entry, the notifications that are under way, and the addresses that
-- the callback knows.
pub record Watch : Type 0 where
  pub entry : HostEntry
  pub pending : List Notice
  pub known : List Bytes

unfoldable pub queued : Option Notice → List Notice
queued none = []
queued (some n) = n ∷ []

unfoldable pub names : Bytes → Notice → Bool
unfolding in_str_array
names x n = in_str_array x n.new_addrs || in_str_array x n.removed_addrs

-- The notification names no address that one of the others names.
abbrev pub IsApart : Notice → List Notice → Type 0
IsApart n ms = (x : Bytes) → names x n ≡ true → All (λ m. names x m ≡ false) ms

-- A lookup ends, or a notification reaches the callback, whose work on it is one step. It may
-- overtake the notifications `ms` that were started before it, if it names none of their addresses.
pub data Step : Watch → Watch → Type 0 where
  resolved :
      (result : Result (List Bytes)) (w : Watch)
      → Step w (record w {
        entry = (entry_resolved result w.entry).0;
        pending = w.pending ++ queued (entry_resolved result w.entry).1;
      })
  delivered :
      (ms : List Notice) (n : Notice) (ns : List Notice) (w : Watch)
      → w.pending ≡ ms ++ n ∷ ns
      → IsApart n ms
      → Step w (record w { pending = ms ++ ns; known = informed n w.known })

pub data Reach (w : Watch) : Watch → Type 0 where
  here : Reach w w
  next : {u v : Watch} → Reach w u → Step u v → Reach w v

abbrev pub IsSynced : Watch → Type 0
IsSynced w = SameTexts (informed_all w.pending w.known) w.entry.addrs

pub informed_all-append :
    (ms ns : List Notice) (known : List Bytes)
    → informed_all (ms ++ ns) known ≡ informed_all ns (informed_all ms known)
unfolding informed_all
informed_all-append [] ns known = refl
informed_all-append (m ∷ ms) ns known = informed_all-append ms ns (informed m known)

pub in_informed :
    (x : Bytes) (n : Notice) (known : List Bytes)
    → in_str_array x (informed n known) ≡ (
        (in_str_array x known || in_str_array x n.new_addrs)
        && not (in_str_array x n.removed_addrs))
unfolding informed
in_informed x n known =
    in_str_array-sub x (known ++ n.new_addrs) n.removed_addrs
    ∙ ap (λ b. b && not (in_str_array x n.removed_addrs)) (in_str_array-append x known n.new_addrs)

-- The difference to the old addresses leads to the new ones.
difference :
    (x : Bytes) (known old addrs : List Bytes)
    → in_str_array x known ≡ in_str_array x old
    → in_str_array x (
        informed
          (record { new_addrs = str_array_sub addrs old; removed_addrs = str_array_sub old addrs })
          known)
      ≡ in_str_array x addrs
difference x known old addrs h =
    in_informed x _ known
    ∙ ground (arith, h, in_str_array-sub x addrs old, in_str_array-sub x old addrs)

pub empty_length : (xs : List Bytes) → ltb 0 (length xs) ≡ false → xs ≡ []
empty_length [] h = refl
empty_length (x ∷ xs) h = ground (arith, h)

unchanged :
    (x : Bytes) (known old addrs : List Bytes)
    → in_str_array x known ≡ in_str_array x old
    → str_array_sub addrs old ≡ []
    → str_array_sub old addrs ≡ []
    → in_str_array x known ≡ in_str_array x addrs
unfolding in_str_array
unchanged x known old addrs h a r =
    let none_added : in_str_array x (str_array_sub addrs old) ≡ false = rw a refl in
    let none_removed : in_str_array x (str_array_sub old addrs) ≡ false = rw r refl in
    ground (
      arith,
      h,
      none_added,
      none_removed,
      in_str_array-sub x addrs old,
      in_str_array-sub x old addrs,
    )

entry_resolved-Same :
    (result : Result (List Bytes)) (e : HostEntry) (known : List Bytes)
    → SameTexts known e.addrs
    → SameTexts
        (informed_all (queued (entry_resolved result e).1) known)
        (entry_resolved result e).0.addrs
unfolding entry_resolved entry_failed entry_changed queued informed_all
entry_resolved-Same (err x) e known h t =
    elim (Bool-cases (ltb 3 (e.failed + 1) && ltb 0 (length e.addrs))) [
      | inl c ↦
          rw (entry_failed, c)
            (in_informed t (record { new_addrs = []; removed_addrs = e.addrs }) known
              ∙ ground (arith, h t))
      | inr c ↦ rw (entry_failed, c) (h t)
    ]
entry_resolved-Same (ok addrs) e known h t =
    let added : List Bytes = str_array_sub addrs e.addrs in
    let removed : List Bytes = str_array_sub e.addrs addrs in
    elim (Bool-cases (ltb 0 (length added) || ltb 0 (length removed))) [
      | inl c ↦ rw (entry_changed, c) (difference t known e.addrs addrs (h t))
      | inr c ↦
          rw (entry_changed, c)
            (unchanged t known e.addrs addrs (h t) (empty_length added (ground (arith, c)))
              (empty_length removed (ground (arith, c))))
    ]

-- An address that is not named stays as it was; what becomes of an address depends on it alone.
module _ (x : Bytes) where
  informed-Same :
      (n : Notice) (k l : List Bytes)
      → in_str_array x k ≡ in_str_array x l
      → in_str_array x (informed n k) ≡ in_str_array x (informed n l)
  informed-Same n k l h = ground (arith, h, in_informed x n k, in_informed x n l)

  informed_all-Same :
      (ns : List Notice) (k l : List Bytes)
      → in_str_array x k ≡ in_str_array x l
      → in_str_array x (informed_all ns k) ≡ in_str_array x (informed_all ns l)
  unfolding informed_all
  informed_all-Same [] k l h = h
  informed_all-Same (n ∷ ns) k l h =
      informed_all-Same ns (informed n k) (informed n l) (informed-Same n k l h)

  informed_unnamed :
      (n : Notice) (k : List Bytes)
      → names x n ≡ false
      → in_str_array x (informed n k) ≡ in_str_array x k
  unfolding names
  informed_unnamed n k h = ground (arith, h, in_informed x n k)

  informed_all_unnamed :
      (ns : List Notice) (k : List Bytes)
      → All (λ m. names x m ≡ false) ns
      → in_str_array x (informed_all ns k) ≡ in_str_array x k
  unfolding informed_all
  informed_all_unnamed [] k h = refl
  informed_all_unnamed (n ∷ ns) k h =
      informed_all_unnamed ns (informed n k) h.1 ∙ informed_unnamed n k h.0

  -- A notification that overtakes others with no address of its own does what it would have done.
  overtaking :
      (ms : List Notice) (n : Notice) (ns : List Notice) (k : List Bytes)
      → (names x n ≡ true → All (λ m. names x m ≡ false) ms)
      → in_str_array x (informed_all (ms ++ ns) (informed n k))
        ≡ in_str_array x (informed_all (ms ++ n ∷ ns) k)
  unfolding informed_all
  overtaking ms n ns k apart =
      let before : List Bytes = informed_all ms (informed n k) in
      let after : List Bytes = informed n (informed_all ms k) in
      let same : in_str_array x before ≡ in_str_array x after = elim (Bool-cases (names x n)) [
        | inl e ↦
            informed_all_unnamed ms (informed n k) (apart e)
            ∙ informed-Same n k (informed_all ms k) (sym (informed_all_unnamed ms k (apart e)))
        | inr e ↦
            informed_all-Same ms (informed n k) k (informed_unnamed n k e)
            ∙ sym (informed_unnamed n (informed_all ms k) e)
      ] in
      ap (in_str_array x) (informed_all-append ms ns (informed n k))
      ∙ informed_all-Same ns before after same
      ∙ ap (in_str_array x) (sym (informed_all-append ms (n ∷ ns) k))

-- Every step keeps the callback in step with the resolver.
Step-IsSynced : {w v : Watch} → Step w v → IsSynced w → IsSynced v
unfolding informed_all
Step-IsSynced (resolved result w) h x =
    ap (in_str_array x)
      (informed_all-append w.pending (queued (entry_resolved result w.entry).1) w.known)
    ∙ entry_resolved-Same result w.entry (informed_all w.pending w.known) h x
Step-IsSynced (delivered ms n ns w e apart) h x =
    overtaking x ms n ns w.known (apart x)
    ∙ ap (λ ps. in_str_array x (informed_all ps w.known)) (sym e)
    ∙ h x

-- However lookups and deliveries follow one another, where a notification overtakes only such as it
-- shares no address with: the pending notifications, applied in the order in which they were started
-- to the addresses that the callback knows, give the addresses that the resolver holds; if it was so
-- at the beginning.
pub Reach-IsSynced : {w v : Watch} → Reach w v → IsSynced w → IsSynced v
Reach-IsSynced here h = h
Reach-IsSynced (next r st) h = Step-IsSynced st (Reach-IsSynced r h)
