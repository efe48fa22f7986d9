-- ===== src/Address/RoundTrip.antt =====
-- Addresses are read back from what is printed for them.
use native.Mathlib.Nat.{suc-add}
use sipproxy.Address.{
  AddrSpec, sip_uri, absolute_uri, no_uri, parse_addr_spec, print_addr_spec, write_addr_spec,
  NameAddr, between, parse_name_addr, print_name_addr,
}
use sipproxy.Prelude.{
  ℕ, ◌+◌, ◌≡◌, refl, ◌⊎◌, inl, inr, true, false, ◌||◌, some, [], ◌∷◌, ◌++◌, append_assoc, arith,
  ltb, length, drop, length-append, ok, sym,
}
use sipproxy.SipUri.{print_sip_uri}
use sipproxy.SipUri.Pieces.{IsSipUri}
use sipproxy.SipUri.RoundTrip.{parse-print_sip_uri, print-behind_scheme}
use sipproxy.Text.{Bytes, codes, starts_with, cut, lacks}
use sipproxy.Text.Cut.{cut-append, lacks-append}
use sipproxy.Text.Format.{printf-lacks}

-- A SIP URI behind its scheme, or another URI, without angle brackets. The printer of a name-addr
-- takes an absolute URI for a format, so it holds no percent sign.
abbrev pub IsAddr : AddrSpec → Type 0
IsAddr (sip_uri u) =
    IsSipUri u × (lacks b'<' (print_sip_uri u) ≡ true) × (lacks b'>' (print_sip_uri u) ≡ true)
IsAddr (absolute_uri s) =
    (starts_with (codes "sip:") s ≡ false)
    × (starts_with (codes "sips:") s ≡ false)
    × (lacks b'%' s ≡ true)
    × (lacks b'<' s ≡ true)
    × (lacks b'>' s ≡ true)
IsAddr no_uri = ⊥

pub record IsNameAddr (na : NameAddr) : Type 0 where
  pub name_plain : lacks b'%' na.display_name ≡ true
  pub name_open : lacks b'<' na.display_name ≡ true
  pub name_close : lacks b'>' na.display_name ≡ true
  pub addr_clean : IsAddr na.addr

sip_prefix :
    (scheme rest : Bytes)
    → (scheme ≡ codes "sip") ⊎ (scheme ≡ codes "sips")
    → (starts_with (codes "sip:") (scheme ++ (b':' ∷ rest))
        || starts_with (codes "sips:") (scheme ++ (b':' ∷ rest)))
      ≡ true
unfolding starts_with
sip_prefix scheme rest (inl e) = rw e
sip_prefix scheme rest (inr e) = rw e

-- Printing a well-formed address, a SIP URI or another URI, and parsing the text gives it back.
pub parse-print_addr_spec : (a : AddrSpec) → IsAddr a → parse_addr_spec (print_addr_spec a) ≡ ok a
unfolding parse_addr_spec print_addr_spec
parse-print_addr_spec (sip_uri u) h =
    let scheme : (starts_with (codes "sip:") (print_sip_uri u)
          || starts_with (codes "sips:") (print_sip_uri u))
        ≡ true =
      rw (print-behind_scheme u) (sip_prefix u.scheme _ h.0.scheme_known) in
    rw (scheme, parse-print_sip_uri u h.0)
parse-print_addr_spec (absolute_uri s) h = rw (h.0, h.1)
parse-print_addr_spec no_uri h = absurd h

write-print_addr_spec : (a : AddrSpec) → IsAddr a → write_addr_spec a ≡ print_addr_spec a
unfolding write_addr_spec print_addr_spec
write-print_addr_spec (sip_uri u) h = refl
write-print_addr_spec (absolute_uri s) h = printf-lacks s h.2
write-print_addr_spec no_uri h = refl

brackets :
    (a : AddrSpec)
    → IsAddr a
    → (lacks b'<' (print_addr_spec a) ≡ true) × (lacks b'>' (print_addr_spec a) ≡ true)
unfolding print_addr_spec
brackets (sip_uri u) h = (h.1, h.2)
brackets (absolute_uri s) h = (h.3, h.4)
brackets no_uri h = absurd h

drop_heading : (name : Bytes) (c : ℕ) (a : Bytes) → drop (length name + 1) (name ++ (c ∷ a)) ≡ a
drop_heading [] c a = refl
drop_heading (x ∷ name) c a = rw suc-add (drop_heading name c a)

between-brackets :
    (name a rest : Bytes)
    → lacks b'<' name ≡ true
    → lacks b'>' name ≡ true
    → lacks b'>' a ≡ true
    → between
        (cut b'<' (name ++ (b'<' ∷ (a ++ (b'>' ∷ rest)))))
        (cut b'>' (name ++ (b'<' ∷ (a ++ (b'>' ∷ rest)))))
      ≡ ok (name, a)
unfolding between
between-brackets name a rest l r e =
    let close : cut b'>' (name ++ (b'<' ∷ (a ++ (b'>' ∷ rest)))) ≡ some (name ++ (b'<' ∷ a), rest) =
      rw (← append_assoc name (b'<' ∷ a) (b'>' ∷ rest))
        (cut-append b'>' (name ++ (b'<' ∷ a)) rest (lacks-append b'>' name (b'<' ∷ a) r e)) in
    let long : ltb (length (name ++ (b'<' ∷ a))) (length name) ≡ false =
      rw (length-append name (b'<' ∷ a)) (ground arith) in
    rw (cut-append b'<' name _ l, close, between, long, drop_heading name b'<' a)

-- Printing a well-formed name-addr and parsing the text gives the name-addr back.
pub parse-print_name_addr :
    (na : NameAddr) → IsNameAddr na → parse_name_addr (print_name_addr na) ≡ ok na
unfolding parse_name_addr print_name_addr
parse-print_name_addr na h =
    let (opening, closing) = brackets na.addr h.addr_clean in
    rw (
      printf-lacks na.display_name h.name_plain,
      write-print_addr_spec na.addr h.addr_clean,
      between-brackets na.display_name (print_addr_spec na.addr) [] h.name_open h.name_close
          closing,
      parse-print_addr_spec na.addr h.addr_clean,
    )

-- The text of a name-addr up to its `>`.
pub name_addr_open : NameAddr → Bytes
name_addr_open na = na.display_name ++ (b'<' ∷ print_addr_spec na.addr)

module _ (na : NameAddr) (h : IsNameAddr na) where
  print_name_addr-open : print_name_addr na ≡ name_addr_open na ++ b'>' ∷ []
  unfolding print_name_addr name_addr_open
  print_name_addr-open =
      rw (printf-lacks na.display_name h.name_plain, write-print_addr_spec na.addr h.addr_clean)
        (sym (append_assoc na.display_name _ _))

  open-lacks : lacks b'>' (name_addr_open na) ≡ true
  unfolding name_addr_open
  open-lacks = lacks-append b'>' na.display_name _ h.name_close (brackets na.addr h.addr_clean).1

  -- Behind a printed name-addr a parser finds the bracket and then the rest.
  pub cut-print_name_addr :
      (rest : Bytes) → cut b'>' (print_name_addr na ++ rest) ≡ some (name_addr_open na, rest)
  cut-print_name_addr rest =
      rw (print_name_addr-open, append_assoc) (cut-append b'>' (name_addr_open na) rest open-lacks)

  pub parse_name_addr-open : parse_name_addr (name_addr_open na ++ b'>' ∷ []) ≡ ok na
  parse_name_addr-open = rw (← print_name_addr-open) (parse-print_name_addr na h)

  pub cut_open-print_name_addr :
      (rest : Bytes)
      → cut b'<' (print_name_addr na ++ rest)
        ≡ some (na.display_name, print_addr_spec na.addr ++ b'>' ∷ rest)
  unfolding name_addr_open
  cut_open-print_name_addr rest =
      rw (print_name_addr-open, append_assoc, append_assoc)
        (cut-append b'<' na.display_name _ h.name_open)

  pub open_longer : ltb (length (name_addr_open na)) (length na.display_name) ≡ false
  unfolding name_addr_open
  open_longer = rw (length-append na.display_name _) (ground arith)
