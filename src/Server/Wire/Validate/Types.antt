-- ===== src/Server/Wire/Validate/Types.antt =====
-- engraphy/server/wire_types.py: the wire types, said without the checks.
use engraphy.Base.{
  ℕ, suc, ◌^◌, ◌%◌, ℤ, String, ◌≡◌, refl, ◌⊎◌, inl, inr, Bool, true, false, not, ◌||◌, Option, none,
  some, List, [], ◌∷◌, contains, keep, string_eq, nat_eq, All, arith, Bool-cases,
}
use engraphy.Core.Json.{
  Json, bool, int, float, str, arr, obj, Items, nil, cons, Fields, get, has, keys,
}
use engraphy.Core.AttrSpec.{codes}
use engraphy.Server.Wire.{
  WireType, string, integer, boolean, object, array_of_string, array_of_uuid, array_of_link_items,
}
use engraphy.Server.Wire.Validate.{
  or_next, fails, uuid_re, is_integer, link_item_keys, item_key, first_unknown, check_link_item,
  check_link_items, check_text_item, check_text_items, is_boolean, check_kind,
}
use engraphy.Server.Wire.Validate.Uuid.{IsUuid, uuid_re-IsUuid}
use engraphy.Server.Wire.Validate.Sorts.{All-of-sorted}

-- Every item of an array.
abbrev pub EachItem : (Json → Type 0) → Items → Type 0
EachItem P nil = Unit
EachItem P (cons v vs) = P v × EachItem P vs

-- A text, and an id if one is asked for.
abbrev pub IsText : Bool → Json → Type 0
IsText uuid v = (s : String) × (v ≡ str s) × (uuid ≡ true → IsUuid (codes s))

-- A number without a fraction.
abbrev pub IsWhole : Json → Type 0
IsWhole v =
    ((n : ℤ) × (v ≡ int n)) ⊎ ((s : Bool) × (m : ℕ) × (k : ℕ) × (v ≡ float s m k) × (m % 2 ^ k ≡ 0))

-- A key of a link item that is there holds a text.
abbrev pub TextIfThere : Option Json → Type 0
TextIfThere o = (o ≡ none) ⊎ ((s : String) × (o ≡ some (str s)))

abbrev pub IsLinkItem : Json → Type 0
IsLinkItem v =
    (d : Fields) × (v ≡ obj d)
    × All (λ k. contains ("dst_id" ∷ "src_id" ∷ "type" ∷ []) k ≡ true) (keys d)
    × (has "type" d ≡ true)
    × TextIfThere (get "dst_id" d)
    × TextIfThere (get "src_id" d)
    × TextIfThere (get "type" d)

abbrev IsArray : (Json → Type 0) → Json → Type 0
IsArray P v = (items : Items) × (v ≡ arr items) × EachItem P items

-- A value of a wire type.
abbrev pub HasType : WireType → Bool → Json → Type 0
HasType string uuid v = IsText uuid v
HasType integer uuid v = IsWhole v
HasType boolean uuid v = (b : Bool) × (v ≡ bool b)
HasType object uuid v = (d : Fields) × (v ≡ obj d)
HasType array_of_string uuid v = IsArray (IsText false) v
HasType array_of_uuid uuid v = IsArray (IsText true) v
HasType array_of_link_items uuid v = IsArray IsLinkItem v

pub or_next-none {ℓ} : {A : Type ℓ} (o p : Option A) → or_next o p ≡ none → (o ≡ none) × (p ≡ none)
or_next-none none p h = (refl, h)
or_next-none (some a) p h = cc

pub fails-none {ℓ} : {A : Type ℓ} (b : Bool) (a : A) → fails b a ≡ none → b ≡ true
fails-none true a h = refl
fails-none false a h = cc

text-IsUuid :
    (uuid : Bool) (cs : List ℕ) → (not uuid || uuid_re cs) ≡ true → uuid ≡ true → IsUuid cs
text-IsUuid true cs h asked = uuid_re-IsUuid cs h
text-IsUuid false cs h asked = cc

accepted_item : (uuid : Bool) (i : ℕ) (v : Json) → check_text_item uuid i v ≡ none → IsText uuid v
unfolding check_text_item
accepted_item uuid i (str s) h = (s, refl, text-IsUuid uuid (codes s) (fails-none _ _ h))
accepted_item uuid i _ h = cc

accepted_items :
    (uuid : Bool) (i : ℕ) (items : Items)
    → check_text_items uuid i items ≡ none
    → EachItem (IsText uuid) items
unfolding check_text_items
accepted_items uuid i nil h = tt
accepted_items uuid i (cons v vs) h =
    let (first, rest) = or_next-none _ _ h in
    (accepted_item uuid i v first, accepted_items uuid (suc i) vs rest)

no_unknown : (i : ℕ) (ks : List String) → first_unknown i ks ≡ none → All (λ k. ⊥) ks
unfolding first_unknown
no_unknown i [] h = tt
no_unknown i (k ∷ ks) h = cc

none_kept :
    (p : String → Bool) (ks : List String)
    → All (λ k. ⊥) (keep (λ k. not (p k)) ks)
    → All (λ k. p k ≡ true) ks
none_kept p [] h = tt
none_kept p (k ∷ ks) h = elim (Bool-cases (p k)) [
  | inl good ↦ (good, none_kept p ks (rw good at h))
  | inr bad ↦ absurd ((rw bad at h).0)
]

key_text : (i : ℕ) (k : String) (o : Option Json) → item_key i k o ≡ none → TextIfThere o
unfolding item_key
key_text i k none h = inl refl
key_text i k (some (str s)) h = inr (s, refl)
key_text i k (some _) h = cc

link_item : (i : ℕ) (v : Json) → check_link_item i v ≡ none → IsLinkItem v
unfolding check_link_item link_item_keys
link_item i (obj d) h =
    let (known, h1) = or_next-none _ _ h in
    let (typed, h2) = or_next-none _ _ h1 in
    let (dst, h3) = or_next-none _ _ h2 in
    let (src, type) = or_next-none _ _ h3 in
    (
      d,
      refl,
      none_kept _ (keys d) (All-of-sorted (λ k. ⊥) _ (no_unknown i _ known)),
      fails-none _ _ typed,
      key_text i "dst_id" _ dst,
      key_text i "src_id" _ src,
      key_text i "type" _ type,
    )
link_item i _ h = cc

link_items : (i : ℕ) (items : Items) → check_link_items i items ≡ none → EachItem IsLinkItem items
unfolding check_link_items
link_items i nil h = tt
link_items i (cons v vs) h =
    let (first, rest) = or_next-none _ _ h in (link_item i v first, link_items (suc i) vs rest)

whole : (v : Json) → is_integer v ≡ true → IsWhole v
unfolding is_integer
whole (int n) h = inl (n, refl)
whole (float s m k) h = inr (s, m, k, refl, ground (arith, h))
whole _ h = cc

truth : (v : Json) → is_boolean v ≡ true → (b : Bool) × (v ≡ bool b)
unfolding is_boolean
truth (bool b) h = (b, refl)
truth _ h = cc

pub kind_of :
    (t : WireType) (uuid : Bool) (v : Json) → check_kind t uuid v ≡ none → HasType t uuid v
unfolding check_kind
kind_of string uuid (str s) h = (s, refl, text-IsUuid uuid (codes s) (fails-none _ _ h))
kind_of integer uuid v h = whole v (fails-none _ _ h)
kind_of boolean uuid v h = truth v (fails-none _ _ h)
kind_of object uuid (obj d) h = (d, refl)
kind_of array_of_string uuid (arr items) h = (items, refl, accepted_items false 0 items h)
kind_of array_of_uuid uuid (arr items) h = (items, refl, accepted_items true 0 items h)
kind_of array_of_link_items uuid (arr items) h = (items, refl, link_items 0 items h)
kind_of string uuid _ h = cc
kind_of object uuid _ h = cc
kind_of array_of_string uuid _ h = cc
kind_of array_of_uuid uuid _ h = cc
kind_of array_of_link_items uuid _ h = cc
