-- ===== src/KeyValue/Laws.antt =====
-- Laws of parameter lists.
use sipproxy.KeyValue.{KeyValue, find_param, set_param, has_param, keys}
use sipproxy.Prelude.{◌≡◌, refl, ◌∙◌, ◌||◌, List, [], ◌∷◌, ◌++◌, arith, if◌then◌else◌, ok, is_ok}
use sipproxy.Text.{Bytes, str_eq}
use sipproxy.Text.Equality.{str_eq_refl, str_eq_iff}

-- Reading a parameter after writing one gives the new value for the name that was written, and for
-- any other name what was there before.
pub find-set :
    (name j v : Bytes) (kvs : List KeyValue)
    → find_param j (set_param name v kvs) ≡ (if str_eq name j then ok v else find_param j kvs)
unfolding set_param find_param
find-set name j v [] = refl
find-set name j v (kv ∷ kvs) =
    ground
      (arith, str_eq_iff kv.key name, str_eq_iff name j, str_eq_iff kv.key j, find-set name j v kvs)

pub find-set_self :
    (name v : Bytes) (kvs : List KeyValue) → find_param name (set_param name v kvs) ≡ ok v
find-set_self name v kvs = find-set name name v kvs ∙ rw (str_eq_refl name)

pub has-set :
    (name j v : Bytes) (kvs : List KeyValue)
    → has_param j (set_param name v kvs) ≡ (str_eq name j || has_param j kvs)
unfolding set_param has_param
has-set name j v [] = refl
has-set name j v (kv ∷ kvs) =
    ground
      (arith, str_eq_iff kv.key name, str_eq_iff name j, str_eq_iff kv.key j, has-set name j v kvs)

-- The names stay in place; a name that was not there goes to the end.
pub keys-set :
    (name v : Bytes) (kvs : List KeyValue)
    → keys (set_param name v kvs) ≡ (if has_param name kvs then keys kvs else keys kvs ++ name ∷ [])
unfolding set_param has_param
keys-set name v [] = refl
keys-set name v (kv ∷ kvs) = ground (arith, keys-set name v kvs)

pub has_iff_find :
    (name : Bytes) (kvs : List KeyValue) → is_ok (find_param name kvs) ≡ has_param name kvs
unfolding find_param has_param
has_iff_find name [] = refl
has_iff_find name (kv ∷ kvs) = ground (arith, has_iff_find name kvs)
