-- ===== src/KeyValue.antt =====
-- Parameters: key_value.go and generic_param.go, and the loops over a []KeyValue that every header
-- type repeats.
pub mod Laws
pub mod RoundTrip
use sipproxy.Prelude.{
  Option, none, some, List, [], ◌∷◌, ◌++◌, map, if◌then◌else◌, no_such_param, invalid_parameter,
  Result, ok, err, Bool, false, ◌||◌, ◌>>=◌,
}
use sipproxy.Text.{Bytes, str_eq, cut}
use sipproxy.Text.Format.{printf}

pub record KeyValue : Type 0 where
  pub key : Bytes
  pub value : Bytes

unfoldable pub with_value : Bytes → Bytes → Bytes
unfolding printf
with_value k [] = printf k
with_value k (c ∷ v) = printf k ++ (b'=' ∷ printf (c ∷ v))

-- KeyValue.String by way of Write, which takes the key and the value for formats
unfoldable pub print_key_value : KeyValue → Bytes
unfolding with_value
print_key_value kv = with_value kv.key kv.value

-- The split at the first `=`; without one the value is empty.
abbrev pub key_value_of : Bytes → Option (Bytes × Bytes) → KeyValue
key_value_of s none = record { key = s; value = [] }
key_value_of s (some (k, v)) = record { key = k; value = v }

-- ParseGenericParam
unfoldable pub parse_generic_param : Bytes → Result KeyValue
unfolding cut
parse_generic_param [] = err invalid_parameter
parse_generic_param (c ∷ s) = ok (key_value_of (c ∷ s) (cut b'=' (c ∷ s)))

-- `for _, value := range strings.Split(params, ";")`, up to the first error
unfoldable pub parse_generic_params : List Bytes → Result (List KeyValue)
unfolding parse_generic_param
parse_generic_params [] = ok []
parse_generic_params (s ∷ ss) = do
  kv ← parse_generic_param s
  kvs ← parse_generic_params ss
  ok (kv ∷ kvs)

-- `for _, param := range params { if param.Key == name { return param.Value } }`
unfoldable pub find_param : Bytes → List KeyValue → Result Bytes
unfolding str_eq
find_param name [] = err no_such_param
find_param name (kv ∷ kvs) = if str_eq kv.key name then ok kv.value else find_param name kvs

-- The same loop, writing the value where the key fits; a new parameter goes to the end.
unfoldable pub set_param : Bytes → Bytes → List KeyValue → List KeyValue
unfolding str_eq
set_param name v [] = record { key = name; value = v } ∷ []
set_param name v (kv ∷ kvs) =
    let rest = set_param name v kvs in
    if str_eq kv.key name then record kv { value = v } ∷ kvs else kv ∷ rest

-- Is there a parameter of this name?
unfoldable pub has_param : Bytes → List KeyValue → Bool
unfolding str_eq
has_param name [] = false
has_param name (kv ∷ kvs) = str_eq kv.key name || has_param name kvs

-- The keys in order, without their values.
abbrev pub keys : List KeyValue → List Bytes
keys = map (λ kv. kv.key)

-- `;` and a parameter, for each
unfoldable pub print_params : List KeyValue → Bytes
unfolding print_key_value
print_params [] = []
print_params (kv ∷ kvs) = b';' ∷ (print_key_value kv ++ print_params kvs)
