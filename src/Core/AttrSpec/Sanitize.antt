-- ===== src/Core/AttrSpec/Sanitize.antt =====
-- `sanitize_attrs`: what stays, what goes into the quarantine bucket, and that nothing is lost.
use engraphy.Base.{
  String, ◌≡◌, refl, ◌∙◌, ap, ◌≢◌, ◌⊎◌, inl, inr, Bool, true, false, ◌&&◌, ◌||◌, Option, none, some,
  List, [], ◌∷◌, map, ◌==◌, contains, string_eq, if◌then◌else◌, arith, Bool-cases, Option-cases,
  ==_self,
}
use engraphy.Core.Json.{Json, obj, str, Fields, end, field, get, put, keys, has, sorted}
use engraphy.Core.Json.Laws.{
  get-put, has-put, has-without, get-without, contains-keys, contains-sorted,
}
use engraphy.Core.AttrSpec.{
  Dates, Spec, reserved_attr_keys, at_key, bucket, droppable, droppable_in, droppable_errors,
  key_of, entry, fill_bucket, quarantine, sanitize_attrs,
}

abbrev pub is_some {ℓ} : {A : Type ℓ} → Option A → Bool
is_some none = false
is_some (some a) = true

module _ (dates : Dates) (spec : Spec) (attrs : Fields) where
  contains-droppable_in :
      (ks : List String) (k : String)
      → contains (map key_of (droppable_in dates spec attrs ks)) k
        ≡ (contains ks k && is_some (droppable dates spec attrs k))
  unfolding droppable_in key_of
  contains-droppable_in [] k = refl
  contains-droppable_in (j ∷ ks) k = ground (arith, contains-droppable_in ks k)

  droppable-absent : (k : String) → has k attrs ≡ false → droppable dates spec attrs k ≡ none
  unfolding droppable has at_key
  droppable-absent k absent = ground arith

  contains-droppable_errors :
      (k : String)
      → contains (map key_of (droppable_errors dates spec attrs)) k
        ≡ is_some (droppable dates spec attrs k)
  unfolding droppable_errors
  contains-droppable_errors k =
      contains-droppable_in (sorted (keys attrs)) k
      ∙ rw (contains-sorted (keys attrs) k, contains-keys attrs k)
          (ground (arith, droppable-absent k))

  get-fill_bucket :
      (ks : List String) (d : Fields) (k : String)
      → get k (fill_bucket attrs (droppable_in dates spec attrs ks) d) ≡ (
          if contains ks k
          then elim (droppable dates spec attrs k) [
            | none ↦ get k d
            | some e ↦ some (entry attrs k e)
          ]
          else get k d)
  unfolding droppable_in fill_bucket
  get-fill_bucket [] d k = refl
  get-fill_bucket (j ∷ ks) d k = elim (Option-cases (droppable dates spec attrs j)) [
    | inl good ↦ rw (good, droppable_in, get-fill_bucket ks d k) (ground arith)
    | inr (e, bad) ↦
        rw (bad, droppable_in, get-fill_bucket ks (put j (entry attrs j e) d) k)
          (ground (arith, get-put k j (entry attrs j e) d))
  ]

  get-quarantine :
      (errs : List (String × String)) (k : String)
      → k ≢ "dropped"
      → get k (quarantine attrs errs).0
        ≡ (if contains (map key_of errs) k then none else get k attrs)
  unfolding quarantine
  get-quarantine [] k other = refl
  get-quarantine (e ∷ es) k other = rw (get-put, get-without) (ground arith)

  bucket-quarantine :
      (errs : List (String × String))
      → bucket (quarantine attrs errs).0 ≡ fill_bucket attrs errs (bucket attrs)
  unfolding quarantine bucket
  bucket-quarantine [] = refl
  bucket-quarantine (e ∷ es) = rw (get-put, ==_self {A = String} "dropped") refl

  errors-eq-nil :
      droppable_errors dates spec attrs ≡ [] → (k : String) → droppable dates spec attrs k ≡ none
  errors-eq-nil none_bad k = ground (arith, contains-droppable_errors k)

  has-quarantine :
      (errs : List (String × String))
      → has "dropped" attrs ≡ true
      → has "dropped" (quarantine attrs errs).0 ≡ true
  unfolding quarantine
  has-quarantine [] h = h
  has-quarantine (e ∷ es) h = rw (has-put, ==_self {A = String} "dropped") refl

  pub has-sanitize_attrs :
      has "dropped" attrs ≡ true → has "dropped" (sanitize_attrs dates spec attrs).0 ≡ true
  unfolding sanitize_attrs
  has-sanitize_attrs h = has-quarantine _ h

  get_dropped-quarantine :
      (errs : List (String × String))
      → (get "dropped" (quarantine attrs errs).0 ≡ get "dropped" attrs)
        ⊎ ((d : Fields) × (get "dropped" (quarantine attrs errs).0 ≡ some (obj d)))
  unfolding quarantine
  get_dropped-quarantine [] = inl refl
  get_dropped-quarantine (e ∷ es) =
      inr (
        fill_bucket attrs (e ∷ es) (bucket attrs),
        rw (get-put, ==_self {A = String} "dropped") refl,
      )

  -- The bucket's key holds what it held, or an object.
  pub get_dropped-sanitize_attrs :
      (get "dropped" (sanitize_attrs dates spec attrs).0 ≡ get "dropped" attrs)
      ⊎ ((d : Fields) × (get "dropped" (sanitize_attrs dates spec attrs).0 ≡ some (obj d)))
  unfolding sanitize_attrs
  get_dropped-sanitize_attrs = get_dropped-quarantine _

  -- A key of the clean attrs was there before, or is the bucket's.
  has_of-quarantine :
      (errs : List (String × String)) (k : String)
      → has k (quarantine attrs errs).0 ≡ true
      → (has k attrs || k == "dropped") ≡ true
  unfolding quarantine
  has_of-quarantine [] k h = ground arith
  has_of-quarantine (e ∷ es) k h = let h' = rw (has-put, has-without) at h in ground (arith, h')

  pub has_of-sanitize_attrs :
      (k : String)
      → has k (sanitize_attrs dates spec attrs).0 ≡ true
      → (has k attrs || k == "dropped") ≡ true
  unfolding sanitize_attrs
  has_of-sanitize_attrs k h = has_of-quarantine _ k h

  -- Every key but the bucket itself is as it was, or is gone since its value is bad.
  pub get-sanitize_attrs :
      (k : String)
      → k ≢ "dropped"
      → get k (sanitize_attrs dates spec attrs).0
        ≡ (if is_some (droppable dates spec attrs k) then none else get k attrs)
  unfolding sanitize_attrs
  get-sanitize_attrs k other = rw (get-quarantine, contains-droppable_errors k) refl

  pub get-bucket-sanitize_attrs :
      (k : String)
      → get k (bucket (sanitize_attrs dates spec attrs).0) ≡ elim (droppable dates spec attrs k) [
        | none ↦ get k (bucket attrs)
        | some e ↦ some (entry attrs k e)
      ]
  unfolding sanitize_attrs droppable_errors
  get-bucket-sanitize_attrs k =
      rw
        (
          bucket-quarantine,
          get-fill_bucket (sorted (keys attrs)) (bucket attrs) k,
          contains-sorted (keys attrs) k,
          contains-keys attrs k,
        )
        (ground (arith, droppable-absent k))

  -- A key of the clean attrs has no bad value left.
  pub droppable-sanitize_attrs :
      (k : String) → droppable dates spec (sanitize_attrs dates spec attrs).0 k ≡ none
  unfolding droppable at_key
  droppable-sanitize_attrs k = elim (Bool-cases (contains reserved_attr_keys k)) [
    | inl reserved ↦ rw reserved refl
    | inr free ↦ rw free (ground (arith, get-sanitize_attrs k))
  ]

-- Nothing is lost: an attr other than the bucket itself is kept with its value, or is found in the
-- bucket with its value and the error that sent it there.
pub sanitize_attrs-keeps :
    (dates : Dates) (spec : Spec) (attrs : Fields) (k : String) (v : Json)
    → k ≢ "dropped"
    → get k attrs ≡ some v
    → (get k (sanitize_attrs dates spec attrs).0 ≡ some v)
      ⊎ ((e : String) × (get k (bucket (sanitize_attrs dates spec attrs).0)
            ≡ some (obj (field "value" v (field "error" (str e) end)))))
unfolding entry
sanitize_attrs-keeps dates spec attrs k v other present =
    elim (Option-cases (droppable dates spec attrs k)) [
      | inl good ↦ inl (get-sanitize_attrs dates spec attrs k other ∙ rw good present)
      | inr (e, bad) ↦
          inr (e, get-bucket-sanitize_attrs dates spec attrs k ∙ rw (bad, present) refl)
    ]

droppable_in-eq-nil :
    (dates : Dates) (spec : Spec) (attrs : Fields) (ks : List String)
    → ((k : String) → droppable dates spec attrs k ≡ none)
    → droppable_in dates spec attrs ks ≡ []
unfolding droppable_in
droppable_in-eq-nil dates spec attrs [] good = refl
droppable_in-eq-nil dates spec attrs (k ∷ ks) good =
    rw (good k, droppable_in-eq-nil dates spec attrs ks good, droppable_in) refl

pub droppable_errors-sanitize_attrs :
    (dates : Dates) (spec : Spec) (attrs : Fields)
    → droppable_errors dates spec (sanitize_attrs dates spec attrs).0 ≡ []
unfolding droppable_errors
droppable_errors-sanitize_attrs dates spec attrs =
    droppable_in-eq-nil dates spec (sanitize_attrs dates spec attrs).0 _
      (droppable-sanitize_attrs dates spec attrs)

-- A second pass finds nothing more to quarantine and changes nothing.
sanitize_attrs_idem :
    (dates : Dates) (spec : Spec) (attrs : Fields)
    → let once = (sanitize_attrs dates spec attrs).0 in sanitize_attrs dates spec once ≡ (once, [])
sanitize_attrs_idem dates spec attrs =
    unfold sanitize_attrs quarantine in
    ap (quarantine (sanitize_attrs dates spec attrs).0)
      (droppable_errors-sanitize_attrs dates spec attrs)
