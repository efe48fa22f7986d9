-- ===== src/Dict.antt =====
-- Go's map with string keys, as a list of entries of which the first of a key counts. Where the
-- source ranges over a map, the order of the list stands for the order of that range.
use sipproxy.Prelude.{
  ◌≡◌, refl, ◌∙◌, inl, inr, Bool, false, Option, none, some, List, [], ◌∷◌, arith, if◌then◌else◌,
  Bool-cases,
}
use sipproxy.Text.{Bytes, str_eq}
use sipproxy.Text.Equality.{str_eq_sound, str_eq_iff}

abbrev pub Dict {ℓ} : Type ℓ → Type ℓ
Dict V = List (Bytes × V)

module _ {ℓ} {V : Type ℓ} where
  unfoldable pub dict_get : Bytes → Dict V → Option V
  unfolding str_eq
  dict_get k [] = none
  dict_get k ((j, v) ∷ d) = if str_eq j k then some v else dict_get k d

  -- delete(d, k)
  unfoldable pub dict_delete : Bytes → Dict V → Dict V
  unfolding str_eq
  dict_delete k [] = []
  dict_delete k ((j, v) ∷ d) =
      let rest = dict_delete k d in if str_eq j k then rest else (j, v) ∷ rest

  -- d[k] = v
  unfoldable pub dict_put : Bytes → V → Dict V → Dict V
  unfolding dict_delete
  dict_put k v d = (k, v) ∷ dict_delete k d

  -- Deleting every entry that a test picks.
  unfoldable pub dict_sweep : (Bytes → V → Bool) → Dict V → Dict V
  dict_sweep drop_it [] = []
  dict_sweep drop_it ((j, v) ∷ d) =
      let rest = dict_sweep drop_it d in if drop_it j v then rest else (j, v) ∷ rest

  pub dict_get-delete :
      (k j : Bytes) (d : Dict V)
      → dict_get j (dict_delete k d) ≡ (if str_eq k j then none else dict_get j d)
  unfolding dict_get dict_delete
  dict_get-delete k j [] = ground arith
  dict_get-delete k j ((i, v) ∷ d) =
      ground (arith, str_eq_iff i k, str_eq_iff i j, str_eq_iff k j, dict_get-delete k j d)

  pub dict_get-put :
      (k j : Bytes) (v : V) (d : Dict V)
      → dict_get j (dict_put k v d) ≡ (if str_eq k j then some v else dict_get j d)
  unfolding dict_put dict_get
  dict_get-put k j v d = elim (Bool-cases (str_eq k j)) [
    | inl e ↦ rw e
    | inr e ↦ rw e (dict_get-delete k j d ∙ rw e)
  ]

-- No two entries of a key.
module _ {ℓ} {V : Type ℓ} where
  abbrev pub Absent : Bytes → Dict V → Type 0
  Absent k [] = Unit
  Absent k ((j, v) ∷ d) = (str_eq j k ≡ false) × Absent k d

  abbrev pub IsDict : Dict V → Type 0
  IsDict [] = Unit
  IsDict ((j, v) ∷ d) = Absent j d × IsDict d

  pub dict_get-Absent : (k : Bytes) (d : Dict V) → Absent k d → dict_get k d ≡ none
  unfolding dict_get
  dict_get-Absent k [] h = refl
  dict_get-Absent k ((j, v) ∷ d) h = ground (arith, h.0, dict_get-Absent k d h.1)

  dict_sweep-Absent :
      (drop_it : Bytes → V → Bool) (k : Bytes) (d : Dict V)
      → Absent k d
      → Absent k (dict_sweep drop_it d)
  unfolding dict_sweep
  dict_sweep-Absent drop_it k [] h = tt
  dict_sweep-Absent drop_it k ((j, v) ∷ d) h = elim (Bool-cases (drop_it j v)) [
    | inl e ↦ rw e (dict_sweep-Absent drop_it k d h.1)
    | inr e ↦ rw e (h.0, dict_sweep-Absent drop_it k d h.1)
  ]

  -- A sweep forgets the picked values and keeps the others.
  pub dict_get-sweep_none :
      (drop_it : Bytes → V → Bool) (k : Bytes) (d : Dict V)
      → dict_get k d ≡ none
      → dict_get k (dict_sweep drop_it d) ≡ none
  unfolding dict_get dict_sweep
  dict_get-sweep_none drop_it k [] h = refl
  dict_get-sweep_none drop_it k ((j, v) ∷ d) h = ground (arith, h, dict_get-sweep_none drop_it k d)

  pub dict_get-sweep :
      (drop_it : Bytes → V → Bool) (k : Bytes) (d : Dict V)
      → IsDict d
      → dict_get k (dict_sweep drop_it d)
        ≡ elim (dict_get k d) [ none ↦ none | some v ↦ (if drop_it k v then none else some v) ]
  unfolding dict_get dict_sweep
  dict_get-sweep drop_it k [] h = refl
  dict_get-sweep drop_it k ((j, v) ∷ d) h = elim (Bool-cases (str_eq j k)) [
    | inl e ↦
        let same = str_eq_sound j k e in
        elim (Bool-cases (drop_it j v)) [
          | inl p ↦ rw (
            p,
            dict_get-sweep drop_it k d h.1,
            dict_get-Absent k d (rw same at h.0),
            e,
            ← same,
            p,
          )
          | inr p ↦ rw (p, e, dict_get, ← same, p)
        ]
    | inr e ↦ elim (Bool-cases (drop_it j v)) [
      | inl p ↦ rw (p, e) (dict_get-sweep drop_it k d h.1)
      | inr p ↦ rw (p, e) (dict_get-sweep drop_it k d h.1)
    ]
  ]

  dict_delete-Absent : (k j : Bytes) (d : Dict V) → Absent j d → Absent j (dict_delete k d)
  unfolding dict_delete
  dict_delete-Absent k j [] h = tt
  dict_delete-Absent k j ((i, v) ∷ d) h = elim (Bool-cases (str_eq i k)) [
    | inl e ↦ rw e (dict_delete-Absent k j d h.1)
    | inr e ↦ rw e (h.0, dict_delete-Absent k j d h.1)
  ]

  dict_delete-Absent_self : (k : Bytes) (d : Dict V) → Absent k (dict_delete k d)
  unfolding dict_delete
  dict_delete-Absent_self k [] = tt
  dict_delete-Absent_self k ((i, v) ∷ d) = elim (Bool-cases (str_eq i k)) [
    | inl e ↦ rw e (dict_delete-Absent_self k d)
    | inr e ↦ rw e (e, dict_delete-Absent_self k d)
  ]

  pub dict_delete-IsDict : (k : Bytes) (d : Dict V) → IsDict d → IsDict (dict_delete k d)
  unfolding dict_delete
  dict_delete-IsDict k [] h = tt
  dict_delete-IsDict k ((j, v) ∷ d) h = elim (Bool-cases (str_eq j k)) [
    | inl e ↦ rw e (dict_delete-IsDict k d h.1)
    | inr e ↦ rw e (dict_delete-Absent k j d h.0, dict_delete-IsDict k d h.1)
  ]

  pub dict_put-IsDict : (k : Bytes) (v : V) (d : Dict V) → IsDict d → IsDict (dict_put k v d)
  unfolding dict_put
  dict_put-IsDict k v d h = (dict_delete-Absent_self k d, dict_delete-IsDict k d h)

  pub dict_sweep-IsDict :
      (drop_it : Bytes → V → Bool) (d : Dict V) → IsDict d → IsDict (dict_sweep drop_it d)
  unfolding dict_sweep
  dict_sweep-IsDict drop_it [] h = tt
  dict_sweep-IsDict drop_it ((j, v) ∷ d) h = elim (Bool-cases (drop_it j v)) [
    | inl e ↦ rw e (dict_sweep-IsDict drop_it d h.1)
    | inr e ↦ rw e (dict_sweep-Absent drop_it j d h.0, dict_sweep-IsDict drop_it d h.1)
  ]
