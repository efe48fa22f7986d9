-- ===== src/Prelude/Results.antt =====
-- What a function of the source returns beside an `error`, and integers with a sign.
use Prim.Native.Nat.{ℕ, compare, Ordering}
use mathlib.Core.Path.{◌≡◌, ap}
use native.Mathlib.Omega.{arith}
use mathlib.Core.Bool.{Bool, true, false}
use mathlib.Core.Logic.{◌≢◌}

-- The kinds of errors; the source tells them apart by their text only.
pub data Error : Type 0 where
  malformed_number number_out_of_range : Error
  malformed_via malformed_protocol malformed_sent_by no_via_param : Error
  out_of_bound no_such_param no_such_header : Error
  invalid_parameter invalid_scheme malformed_name_addr malformed_header : Error
  malformed_cseq malformed_route malformed_first_line malformed_header_line : Error
  wrong_type not_sip_uri not_absolute_uri no_address no_route_param : Error
  end_of_input negative_length not_request no_transaction : Error
  no_backend send_failed no_session no_route not_my_address : Error
  unsupported_protocol no_transport nil_dereference : Error
  -- no error of the program: a loop was given too few rounds
  out_of_fuel : Error

pub data Result {ℓ} (A : Type ℓ) : Type ℓ where
  ok : A → Result A
  err : Error → Result A

infixl 5 ◌>>=◌
abbrev pub ◌>>=◌ {ℓ κ} : {A : Type ℓ} {B : Type κ} → Result A → (A → Result B) → Result B
ok a >>= f = f a
err e >>= f = err e

abbrev pub is_ok {ℓ} : {A : Type ℓ} → Result A → Bool
is_ok (ok a) = true
is_ok (err e) = false

-- The value beside the error, where the source goes on with it.
abbrev pub value_or {ℓ} : {A : Type ℓ} → Result A → A → A
value_or (ok a) d = a
value_or (err e) d = d

-- A result that no loop cut short for want of fuel.
abbrev pub Completes {ℓ} : {A : Type ℓ} → Result A → Type ℓ
Completes r = r ≢ err out_of_fuel

pub >>=-Completes {ℓ κ} :
    {A : Type ℓ} {B : Type κ} (m : Result A) (f : A → Result B)
    → Completes m
    → ((a : A) → Completes (f a))
    → Completes (m >>= f)
>>=-Completes (ok a) f h k = k a
>>=-Completes (err e) f h k = λ p. h (cc)

-- Go's `int`: `negsuc n` is -(n + 1).
pub data ℤ : Type 0 where
  pos : ℕ → ℤ
  negsuc : ℕ → ℤ

abbrev nat_eq : ℕ → ℕ → Bool
nat_eq a b = elim (compare a b) [ Ordering.eq ↦ true | _ ↦ false ]

abbrev pub int_eq : ℤ → ℤ → Bool
int_eq (pos a) (pos b) = nat_eq a b
int_eq (negsuc a) (negsuc b) = nat_eq a b
int_eq _ _ = false

nat_eq_sound : (a b : ℕ) → nat_eq a b ≡ true → a ≡ b
nat_eq_sound a b h = ground arith

pub int_eq_sound : (a b : ℤ) → int_eq a b ≡ true → a ≡ b
int_eq_sound (pos a) (pos b) h = ap pos (nat_eq_sound a b h)
int_eq_sound (negsuc a) (negsuc b) h = ap negsuc (nat_eq_sound a b h)
int_eq_sound (pos a) (negsuc b) h = cc
int_eq_sound (negsuc a) (pos b) h = cc

pub int_eq_refl : (a : ℤ) → int_eq a a ≡ true
int_eq_refl (pos a) = ground arith
int_eq_refl (negsuc a) = ground arith
