-- ===== src/Nsec3/Chains/Groups.antt =====
-- The groups of records by parameters (validator/internal/validator/nsec.go
-- `groupNSEC3ByParams`) hold the records of the response.
use mathlib.Core.List.{Memᴰ}
use mathlib.Core.List.Memᴰ
use mathlib.Core.Path.{subst}
use sigillum_dnssec.Prelude.{
  ◌≡◌, ◌⊎◌, inl, inr, refl, ◌∙◌, ap, Bool, true, false, List, [], ◌∷◌, ◌++◌, keep_if, if◌then◌else◌,
}
use sigillum_dnssec.Sets.{label_order}
use sigillum_dnssec.Nsec3.{Nsec3}
use sigillum_dnssec.Nsec3.Chains.{Group, add_to_group, group_all, param_key, same_params}

-- The record is the new one, or one of a group.
InGroups : Nsec3 → List Group → Nsec3 → Type 0
InGroups x groups r = (r ≡ x) ⊎ ((h : Group) × (Memᴰ h groups × Memᴰ r h.records))

in_later :
    (x r : Nsec3) (h : Group) (groups : List Group)
    → InGroups x groups r
    → InGroups x (h ∷ groups) r
unfolding InGroups
in_later x r h groups (inl e) = inl e
in_later x r h groups (inr (g, (m, k))) = inr (g, (Memᴰ.tail m, k))

in_grown :
    (g : Group) (x r : Nsec3) (h : Group) (groups : List Group)
    → Memᴰ r (h.records ++ x ∷ [])
    → InGroups x (h ∷ groups) r
unfolding InGroups
in_grown g x r h groups k = elim (Memᴰ.append_cases h.records k) [
  | inl old ↦ inr (h, (Memᴰ.head refl, old))
  | inr last ↦ inl (Memᴰ.eq_of_singleton last)
]

grouped_either :
    (test : Bool) (g : Group) (x : Nsec3) (h : Group) (groups rest : List Group) (r : Nsec3)
    → Memᴰ g (if test then record h { records = h.records ++ x ∷ [] } ∷ groups else h ∷ rest)
    → Memᴰ r g.records
    → (Memᴰ g rest → InGroups x groups r)
    → InGroups x (h ∷ groups) r
unfolding InGroups
grouped_either true g x h groups rest r m k later = elim (Memᴰ.cases_cons m) [
  | inl e ↦ in_grown g x r h groups (subst (λ y. Memᴰ r y.records) e k)
  | inr old ↦ inr (g, (Memᴰ.tail old, k))
]
grouped_either false g x h groups rest r m k later = elim (Memᴰ.cases_cons m) [
  | inl e ↦ inr (g, (Memᴰ.head e, k))
  | inr new ↦ in_later x r h groups (later new)
]

grouped :
    (g : Group) (x : Nsec3) (groups : List Group) (r : Nsec3)
    → Memᴰ g (add_to_group x groups)
    → Memᴰ r g.records
    → InGroups x groups r
unfolding add_to_group
grouped g x [] r m k =
    unfold InGroups in
    inl (Memᴰ.eq_of_singleton (subst (λ h. Memᴰ r h.records) (Memᴰ.eq_of_singleton m) k))
grouped g x (h ∷ groups) r m k =
    grouped_either (same_params (param_key x) h.params) g x h groups (add_to_group x groups) r m k
      (λ new. grouped g x groups r new k)

pub all_grouped :
    (g : Group) (groups : List Group) (records : List Nsec3) (r : Nsec3)
    → Memᴰ g (group_all groups records)
    → Memᴰ r g.records
    → Memᴰ r records ⊎ ((h : Group) × (Memᴰ h groups × Memᴰ r h.records))
unfolding group_all InGroups
all_grouped g groups [] r m k = inr (g, (m, k))
all_grouped g groups (x ∷ records) r m k =
    elim (all_grouped g (add_to_group x groups) records r m k) [
      | inl later ↦ inl (Memᴰ.tail later)
      | inr (h, (member, inside)) ↦ elim (grouped h x groups r member inside) [
        | inl e ↦ inl (Memᴰ.head e)
        | inr old ↦ inr old
      ]
    ]

kept_either {ℓ} :
    {A : Type ℓ} (keep : A → Bool) (a x : A) (xs : List A) (test : Bool)
    → keep x ≡ test
    → Memᴰ a (if test then x ∷ keep_if keep xs else keep_if keep xs)
    → (Memᴰ a (keep_if keep xs) → (keep a ≡ true) × Memᴰ a xs)
    → (keep a ≡ true) × Memᴰ a (x ∷ xs)
kept_either keep a x xs true e m later = elim (Memᴰ.cases_cons m) [
  | inl here ↦ (ap keep here ∙ e, Memᴰ.head here)
  | inr rest ↦ ((later rest).0, Memᴰ.tail (later rest).1)
]
kept_either keep a x xs false e m later = ((later m).0, Memᴰ.tail (later m).1)

pub kept_member {ℓ} :
    {A : Type ℓ} (keep : A → Bool) (a : A) (xs : List A)
    → Memᴰ a (keep_if keep xs)
    → (keep a ≡ true) × Memᴰ a xs
unfolding keep_if
kept_member keep a [] m = absurd (Memᴰ.not-nil m)
kept_member keep a (x ∷ xs) m =
    kept_either keep a x xs (keep x) refl m (λ later. kept_member keep a xs later)
