-- ===== src/Message/IdLaws.antt =====
-- Laws of the identifiers: which messages of a dialog share one.
use sipproxy.Message.{is_final_code}
use sipproxy.Message.Ids.{dialog_id, session_id}
use sipproxy.Prelude.{ℕ, ◌≤◌, ◌<◌, ◌≡◌, refl, ◌≢◌, ◌↔◌, true, false, arith, pos, negsuc}
use sipproxy.Text.{Bytes}
use sipproxy.Text.Equality.{str_lt_asymm, str_lt_total}

-- The session identifier does not depend on which of the two parties sent the message.
pub session_id_comm : (call_id a b : Bytes) → session_id call_id a b ≡ session_id call_id b a
unfolding session_id
session_id_comm call_id a b = ground (arith, str_lt_asymm a b, str_lt_asymm b a, str_lt_total a b)

-- The dialog identifier is the same for a message and for one in the other direction, with the
-- tags and addresses exchanged, if the two parties have different addresses.
pub dialog_id_comm :
    (call_id tag_1 addr_1 tag_2 addr_2 : Bytes)
    → addr_1 ≢ addr_2
    → dialog_id call_id tag_1 addr_1 tag_2 addr_2 ≡ dialog_id call_id tag_2 addr_2 tag_1 addr_1
unfolding dialog_id
dialog_id_comm call_id tag_1 addr_1 tag_2 addr_2 different = ground (
  arith,
  different,
  str_lt_asymm addr_1 addr_2,
  str_lt_asymm addr_2 addr_1,
  str_lt_total addr_1 addr_2,
)

-- Of the codes that are not negative, exactly those from 200 to 699 make a final response.
pub is_final_code_iff : (n : ℕ) → (is_final_code (pos n) ≡ true) ↔ ((200 ≤ n) × (n < 700))
unfolding is_final_code
is_final_code_iff n = (λ h. ground (arith, h), λ h. ground (arith, h))

pub not_final_negative : (n : ℕ) → is_final_code (negsuc n) ≡ false
unfolding is_final_code
not_final_negative n = refl
