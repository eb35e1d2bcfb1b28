-- ===== src/Training/Hpo/Merging.antt =====
-- `{**base, **params}` of deepCab/training/hpo.py, and the names of its search spaces.
use deep_cab.Prelude.{
  String, Option, none, some, [], ◌∷◌, All, ◌≡◌, refl, subst, arith, inl, inr, Bool-cases, str_eq,
  eq_iff,
}
use deep_cab.Prelude.Floats.{FloatOps}
use deep_cab.Prelude.Dict.{Dict, lookup, insert, lookup-insert}
use deep_cab.Agent.Json.{Json}
use deep_cab.Training.Hpo.{
  Range, Trial, params_of, merge, spaces, xgb_space, lgbm_space, catboost_space, tf_mlp_space,
  torch_mlp_space, ft_space,
}

-- `new`, or `old` if there is none
abbrev pub newer : {A : Type 0} → Option A → Option A → Option A
newer none old = old
newer (some new) old = some new

module _ {V : Type 0} where
  -- No name stands twice.
  abbrev pub IsDistinct : Dict V → Type 0
  IsDistinct [] = Unit
  IsDistinct ((name, value) ∷ d) = (lookup name d ≡ none) × IsDistinct d

  -- What holds for every value of a dict holds for one that is looked up.
  lookup-All :
      (Holds : V → Type 0) (k : String) (v : V) (d : Dict V)
      → All (λ (entry : String × V). Holds entry.1) d
      → lookup k d ≡ some v
      → Holds v
  unfolding lookup
  lookup-All Holds k v [] h found = absurd (cc found)
  lookup-All Holds k v ((j, w) ∷ d) (h, hs) found = elim (Bool-cases (str_eq j k)) [
    | inl same ↦ let here : w ≡ v = ground (arith, same, found) in subst Holds here h
    | inr other ↦ lookup-All Holds k v d hs (ground (arith, other, found))
  ]

module _ {F : Type 0} where
  -- The parameters override the base, name by name.
  pub lookup-merge :
      (base params : Dict (Json F)) (k : String)
      → IsDistinct params
      → lookup k (merge base params) ≡ newer (lookup k params) (lookup k base)
  unfolding merge lookup
  lookup-merge base [] k h = refl
  lookup-merge base ((name, value) ∷ params) k (fresh, h) = ground (
    arith,
    eq_iff name k,
    fresh,
    lookup-merge (insert name value base) params k h,
    lookup-insert name k value base,
  )

  lookup-params_of :
      (trial : Trial F) (k : String) (space : Dict (Range F))
      → lookup k space ≡ none
      → lookup k (params_of trial space) ≡ none
  unfolding lookup
  lookup-params_of trial k [] h = refl
  lookup-params_of trial k ((name, range) ∷ space) h = elim (Bool-cases (str_eq name k)) [
    | inl same ↦ absurd (ground (arith, same, h))
    | inr other ↦ ground (arith, other, lookup-params_of trial k space (ground (arith, other, h)))
  ]

  pub params_of-IsDistinct :
      (trial : Trial F) (space : Dict (Range F))
      → IsDistinct space
      → IsDistinct (params_of trial space)
  params_of-IsDistinct trial [] h = tt
  params_of-IsDistinct trial ((name, range) ∷ space) (fresh, h) =
      (lookup-params_of trial name space fresh, params_of-IsDistinct trial space h)

  -- Each search space has distinct names.
  pub spaces-IsDistinct :
      (fl : FloatOps F) (kind : String) (space : Dict (Range F))
      → lookup kind (spaces fl) ≡ some space
      → IsDistinct space
  unfolding spaces xgb_space lgbm_space catboost_space tf_mlp_space torch_mlp_space ft_space lookup
  spaces-IsDistinct fl kind space h = lookup-All IsDistinct kind space (spaces fl) all h
    where
      all : All (λ (entry : String × Dict (Range F)). IsDistinct entry.1) (spaces fl)
      all = (
        (refl, (refl, (refl, (refl, tt)))),
        (
          (refl, (refl, (refl, tt))),
          (
            (refl, (refl, (refl, (refl, tt)))),
            (
              (refl, (refl, (refl, tt))),
              ((refl, (refl, (refl, tt))), ((refl, (refl, (refl, (refl, (refl, tt))))), tt)),
            ),
          ),
        ),
      )
